-- ===== src/Dedup/Deleted.antt =====
-- deleteDuplicateWrites of lib/PipeDeduplicationPass.cpp.
use elastic_sycl_hls.Prelude.{
  ℕ, ◌≡◌, inl, inr, refl, sym, ap, ◌∙◌, arith, ◌==◌, Bool, true, false, not, ◌&&◌, ◌||◌,
  if◌then◌else◌, none, some, List, [], ◌∷◌, Bool-cases,
}
use elastic_sycl_hls.Prelude.Members.{member}
use elastic_sycl_hls.Dedup.{
  PipeInstruction, Names, DuplicatePipes, PipesInFunc, Bodies, delete_calls, delete_in_kernels,
  delete_duplicate_writes, get_duplicate_pipes,
}
use elastic_sycl_hls.Dedup.Duplicates.{is_listed}
use elastic_sycl_hls.Dedup.Shared.{is_shared, get_duplicate_pipes-is_listed}

-- What remains of a body where the calls that satisfy a test on names are deleted.
abbrev pub keep_unless : (ℕ → Bool) → List PipeInstruction → List PipeInstruction
keep_unless p [] = []
keep_unless p ((i, none) ∷ is) = (i, none) ∷ keep_unless p is
keep_unless p ((i, some n) ∷ is) = if p n then keep_unless p is else (i, some n) ∷ keep_unless p is

keep_unless-delete_calls :
    (p : ℕ → Bool) (n : ℕ) (is : List PipeInstruction)
    → keep_unless p (delete_calls n is) ≡ keep_unless (λ m. (n == m) || p m) is
unfolding delete_calls
keep_unless-delete_calls p n [] = refl
keep_unless-delete_calls p n ((i, none) ∷ is) = ground (arith, keep_unless-delete_calls p n is)
keep_unless-delete_calls p n ((i, some m) ∷ is) = ground (arith, keep_unless-delete_calls p n is)

keep_unless-same :
    (p q : ℕ → Bool) (is : List PipeInstruction)
    → ((m : ℕ) → p m ≡ q m)
    → keep_unless p is ≡ keep_unless q is
keep_unless-same p q [] same = refl
keep_unless-same p q ((i, none) ∷ is) same = ground (arith, keep_unless-same p q is same)
keep_unless-same p q ((i, some m) ∷ is) same = ground (arith, same m, keep_unless-same p q is same)

keep_unless-none : (is : List PipeInstruction) → keep_unless (λ m. false) is ≡ is
keep_unless-none [] = refl
keep_unless-none ((i, none) ∷ is) = ground (arith, keep_unless-none is)
keep_unless-none ((i, some m) ∷ is) = ground (arith, keep_unless-none is)

module _ (v : Names) where
  abbrev after_kernel : ℕ → ℕ → Bodies → Bodies
  after_kernel n f bodies =
      if v.is_agu f then (λ g. if f == g then delete_calls n (bodies g) else bodies g) else bodies

  after_kernel-hit :
      (n f g : ℕ) (bodies : Bodies)
      → (v.is_agu f && (f == g)) ≡ true
      → after_kernel n f bodies g ≡ delete_calls n (bodies g)
  after_kernel-hit n f g bodies e =
      let agu : v.is_agu f ≡ true = ground arith in
      let same : (f == g) ≡ true = ground arith in rw agu (rw same refl)

  after_kernel-miss :
      (n f g : ℕ) (bodies : Bodies)
      → (v.is_agu f && (f == g)) ≡ false
      → after_kernel n f bodies g ≡ bodies g
  after_kernel-miss n f g bodies e = elim (Bool-cases (v.is_agu f)) [
    | inl agu ↦ (let other : (f == g) ≡ false = ground arith in rw agu (rw other refl))
    | inr plain ↦ rw plain refl
  ]

  keep_unless-delete_in_kernels :
      (p : ℕ → Bool) (n g : ℕ) (fs : List ℕ) (bodies : Bodies)
      → keep_unless p (delete_in_kernels v n fs bodies g)
        ≡ keep_unless (λ m. ((n == m) && v.is_agu g && member g fs) || p m) (bodies g)
  unfolding delete_in_kernels
  keep_unless-delete_in_kernels p n g [] bodies =
      keep_unless-same p (λ m. ((n == m) && v.is_agu g && false) || p m) (bodies g)
        (λ m. ground arith)
  keep_unless-delete_in_kernels p n g (f ∷ fs) bodies =
      let q : ℕ → Bool = λ m. ((n == m) && v.is_agu g && member g fs) || p m in
      let all : ℕ → Bool = λ m. ((n == m) && v.is_agu g && member g (f ∷ fs)) || p m in
      keep_unless-delete_in_kernels p n g fs (after_kernel n f bodies)
      ∙ elim (Bool-cases (v.is_agu f && (f == g))) [
        | inl hit ↦
            (let e : f ≡ g = ground arith in
              let agu : v.is_agu g ≡ true = rw (sym e) (ground arith) in
              ap (keep_unless q) (after_kernel-hit n f g bodies hit)
              ∙ keep_unless-delete_calls q n (bodies g)
              ∙ keep_unless-same (λ m. (n == m) || q m) all (bodies g)
                  (λ m. ground (arith, hit, agu)))
        | inr miss ↦
            (let gone : (f == g) ≡ true → v.is_agu g ≡ false =
                λ h. (let e : f ≡ g = ground (arith, h) in rw (sym e) (ground arith)) in
              ap (keep_unless q) (after_kernel-miss n f g bodies miss)
              ∙ keep_unless-same q all (bodies g) (λ m. ground (arith, gone)))
      ]

  -- A name that is no read, for which the kernel is listed as one of several.
  abbrev is_deleted : ℕ → DuplicatePipes → ℕ → Bool
  is_deleted g dups m = v.is_agu g && not (v.is_pipe_read m) && is_listed m g dups

  keep_unless-delete_duplicate_writes :
      (p : ℕ → Bool) (dups : DuplicatePipes) (g : ℕ) (bodies : Bodies)
      → keep_unless p (delete_duplicate_writes v dups bodies g)
        ≡ keep_unless (λ m. is_deleted g dups m || p m) (bodies g)
  unfolding delete_duplicate_writes
  keep_unless-delete_duplicate_writes p [] g bodies =
      keep_unless-same p (λ m. is_deleted g [] m || p m) (bodies g) (λ m. ground arith)
  keep_unless-delete_duplicate_writes p ((n, fs) ∷ dups) g bodies =
      let q : ℕ → Bool = λ m. is_deleted g dups m || p m in
      let all : ℕ → Bool = λ m. is_deleted g ((n, fs) ∷ dups) m || p m in
      elim (Bool-cases (v.is_pipe_read n)) [
        | inl read ↦
            (let reads : (m : ℕ) → (n == m) ≡ true → v.is_pipe_read m ≡ true =
                λ m h. (let e : n ≡ m = ground (arith, h) in rw e at (read)) in
              rw read (
                keep_unless-delete_duplicate_writes p dups g bodies
                ∙ keep_unless-same q all (bodies g) (λ m. ground (arith, reads m))))
        | inr write ↦
            (let writes : (m : ℕ) → (n == m) ≡ true → v.is_pipe_read m ≡ false =
                λ m h. (let e : n ≡ m = ground (arith, h) in rw e at (write)) in
              rw write (
                keep_unless-delete_duplicate_writes p dups g (delete_in_kernels v n fs bodies)
                ∙ keep_unless-delete_in_kernels q n g fs bodies
                ∙ keep_unless-same (λ m. ((n == m) && v.is_agu g && member g fs) || q m) all
                    (bodies g) (λ m. ground (arith, writes m))))
      ]

-- What deleteDuplicateWrites, after getDuplicatePipes, leaves of the body of a kernel: if the kernel
-- is an address generation unit, all but the pipe operations that are no reads and that another
-- kernel has too; else everything.
pub delete_duplicate_writes-get_duplicate_pipes :
    (v : Names) (pipes : PipesInFunc) (bodies : Bodies) (g : ℕ)
    → delete_duplicate_writes v (get_duplicate_pipes pipes) bodies g
      ≡ keep_unless (λ m. v.is_agu g && not (v.is_pipe_read m) && is_shared pipes m g) (bodies g)
delete_duplicate_writes-get_duplicate_pipes v pipes bodies g =
    let dups : DuplicatePipes = get_duplicate_pipes pipes in
    sym (keep_unless-none (delete_duplicate_writes v dups bodies g))
    ∙ keep_unless-delete_duplicate_writes v (λ m. false) dups g bodies
    ∙ keep_unless-same (λ m. is_deleted v g dups m || false)
        (λ m. v.is_agu g && not (v.is_pipe_read m) && is_shared pipes m g) (bodies g)
        (λ m. ground (arith, get_duplicate_pipes-is_listed pipes m g))
