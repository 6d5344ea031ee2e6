-- ===== src/Dedup/Shared.antt =====
-- getDuplicatePipes of lib/PipeDeduplicationPass.cpp and the names that kernels share.
use elastic_sycl_hls.Prelude.{
  ℕ, ◌≡◌, inl, inr, sym, arith, ◌==◌, Bool, true, false, ◌&&◌, List, [], ◌∷◌, Bool-cases,
}
use elastic_sycl_hls.Prelude.Members.{member}
use elastic_sycl_hls.Dedup.{
  DuplicatePipes, PipesInFunc, match_name, match_names, match_kernels, match_all,
  get_duplicate_pipes,
}
use elastic_sycl_hls.Dedup.Duplicates.{
  is_listed, has_pipe, other_has_pipe, match_name-listed, match_all-added,
}

other_has_pipe-of_has_pipe :
    (n f g : ℕ) (pipes : PipesInFunc)
    → has_pipe n f pipes ≡ true
    → (f == g) ≡ false
    → other_has_pipe n g pipes ≡ true
other_has_pipe-of_has_pipe n f g [] h ne = (let no : ⊥ = cc in elim no [ ])
other_has_pipe-of_has_pipe n f g ((k, ns) ∷ pipes) h ne =
    ground (arith, other_has_pipe-of_has_pipe n f g pipes)

module _ (all : PipesInFunc) where
  -- A kernel has the name, and so has another.
  abbrev pub is_shared : ℕ → ℕ → Bool
  is_shared n f = has_pipe n f all && other_has_pipe n f all

  abbrev pub IsSharing : DuplicatePipes → Type 0
  IsSharing dups = (m g : ℕ) → is_listed m g dups ≡ true → is_shared m g ≡ true

  match_name-IsSharing :
      (n f1 f2 : ℕ) (pipes2 : List ℕ) (dups : DuplicatePipes)
      → (f1 == f2) ≡ false
      → has_pipe n f1 all ≡ true
      → (member n pipes2 ≡ true → has_pipe n f2 all ≡ true)
      → IsSharing dups
      → IsSharing (match_name n f1 f2 pipes2 dups)
  match_name-IsSharing n f1 f2 pipes2 dups ne h k sharing m g listed =
      let (a, b, split) = match_name-listed n f1 f2 pipes2 m g dups in
      elim (Bool-cases (is_listed m g dups)) [
        | inl old ↦ sharing m g old
        | inr new ↦
            (let at : n ≡ m = ground (arith, split) in
              let k' = k (ground (arith, split)) in
              elim (Bool-cases (f1 == g)) [
                | inl first ↦
                    (let e : f1 ≡ g = ground arith in
                      rw (sym e, sym at)
                        (ground
                          (arith, h, other_has_pipe-of_has_pipe n f2 f1 all k' (ground arith))))
                | inr second ↦
                    (let e : f2 ≡ g = ground (arith, split) in
                      rw (sym e, sym at)
                        (ground (arith, k', other_has_pipe-of_has_pipe n f1 f2 all h ne)))
              ])
      ]

  match_names-IsSharing :
      (pipes1 : List ℕ) (f1 f2 : ℕ) (pipes2 : List ℕ) (dups : DuplicatePipes)
      → (f1 == f2) ≡ false
      → ((n : ℕ) → member n pipes1 ≡ true → has_pipe n f1 all ≡ true)
      → ((n : ℕ) → member n pipes2 ≡ true → has_pipe n f2 all ≡ true)
      → IsSharing dups
      → IsSharing (match_names pipes1 f1 f2 pipes2 dups)
  unfolding match_names
  match_names-IsSharing [] f1 f2 pipes2 dups ne h k sharing = sharing
  match_names-IsSharing (n ∷ pipes1) f1 f2 pipes2 dups ne h k sharing =
      match_names-IsSharing pipes1 f1 f2 pipes2 (match_name n f1 f2 pipes2 dups) ne
        (λ m i. h m (ground arith)) k
        (match_name-IsSharing n f1 f2 pipes2 dups ne (h n (ground arith)) (k n) sharing)

  match_kernels-IsSharing :
      (f1 : ℕ) (pipes1 : List ℕ) (rest : PipesInFunc) (dups : DuplicatePipes)
      → ((n : ℕ) → member n pipes1 ≡ true → has_pipe n f1 all ≡ true)
      → ((n f : ℕ) → has_pipe n f rest ≡ true → has_pipe n f all ≡ true)
      → IsSharing dups
      → IsSharing (match_kernels f1 pipes1 rest dups)
  unfolding match_kernels
  match_kernels-IsSharing f1 pipes1 [] dups h k sharing = sharing
  match_kernels-IsSharing f1 pipes1 ((f2, pipes2) ∷ rest) dups h k sharing =
      let k' : (n f : ℕ) → has_pipe n f rest ≡ true → has_pipe n f all ≡ true =
        λ n f i. k n f (ground arith) in
      elim (Bool-cases (f1 == f2)) [
        | inl same ↦ rw same (match_kernels-IsSharing f1 pipes1 rest dups h k' sharing)
        | inr other ↦ rw other (
            match_kernels-IsSharing f1 pipes1 rest (match_names pipes1 f1 f2 pipes2 dups) h k' (
              match_names-IsSharing pipes1 f1 f2 pipes2 dups other h (λ n i. k n f2 (ground arith))
                sharing))
      ]

  match_all-IsSharing :
      (rest : PipesInFunc) (dups : DuplicatePipes)
      → ((n f : ℕ) → has_pipe n f rest ≡ true → has_pipe n f all ≡ true)
      → IsSharing dups
      → IsSharing (match_all rest all dups)
  unfolding match_all
  match_all-IsSharing [] dups k sharing = sharing
  match_all-IsSharing ((f1, pipes1) ∷ rest) dups k sharing =
      match_all-IsSharing rest (match_kernels f1 pipes1 all dups) (λ n f i. k n f (ground arith))
        (match_kernels-IsSharing f1 pipes1 all dups (λ n i. k n f1 (ground arith)) (λ n f i. i)
          sharing)

-- getDuplicatePipes lists a kernel for a name exactly if the kernel has a pipe operation of that name
-- and another kernel has one too.
pub get_duplicate_pipes-is_listed :
    (pipes : PipesInFunc) (n f : ℕ)
    → is_listed n f (get_duplicate_pipes pipes) ≡ is_shared pipes n f
unfolding get_duplicate_pipes
get_duplicate_pipes-is_listed pipes n f =
    let sharing =
      match_all-IsSharing pipes pipes [] (λ n f i. i) (λ m g i. (let no : ⊥ = cc in elim no [ ])) n
        f in
    let added = match_all-added pipes pipes n f [] in ground (arith, sharing, added)
