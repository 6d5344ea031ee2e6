-- ===== src/Dedup/Duplicates.antt =====
-- The names that getDuplicatePipes of lib/PipeDeduplicationPass.cpp lists.
use elastic_sycl_hls.Prelude.{
  ℕ, ◌≡◌, inl, inr, sym, arith, ◌==◌, Bool, true, false, not, ◌&&◌, ◌||◌, if◌then◌else◌, List, [],
  ◌∷◌, Bool-cases,
}
use elastic_sycl_hls.Prelude.Members.{any, member, any-append}
use elastic_sycl_hls.Dedup.{
  DuplicatePipes, PipesInFunc, insert_function, add_duplicate, match_name, match_names,
  match_kernels, match_all,
}

-- Whether a kernel is listed for a name.
abbrev pub is_listed : ℕ → ℕ → DuplicatePipes → Bool
is_listed n f dups = any (λ e. (e.0 == n) && member f e.1) dups

-- Whether a kernel has a pipe operation of the name.
abbrev pub has_pipe : ℕ → ℕ → PipesInFunc → Bool
has_pipe n f pipes = any (λ e. (e.0 == f) && member n e.1) pipes

-- Another kernel has it.
abbrev pub other_has_pipe : ℕ → ℕ → PipesInFunc → Bool
other_has_pipe n f pipes = any (λ e. not (e.0 == f) && member n e.1) pipes

member-insert_function :
    (g f : ℕ) (fs : List ℕ) → member g (insert_function f fs) ≡ ((f == g) || member g fs)
member-insert_function g f fs = ground (arith, any-append (λ c. c == g) fs (f ∷ []))

add_duplicate-listed :
    (n f1 f2 m g : ℕ) (dups : DuplicatePipes)
    → (is_listed m g dups ≡ true → is_listed m g (add_duplicate n f1 f2 dups) ≡ true)
      × (is_listed n f2 (add_duplicate n f1 f2 dups) ≡ true)
      × (is_listed m g (add_duplicate n f1 f2 dups) ≡ true
          → (is_listed m g dups || ((n == m) && ((f1 == g) || (f2 == g)))) ≡ true)
unfolding add_duplicate
add_duplicate-listed n f1 f2 m g [] =
    ground (arith, member-insert_function g f2 (f1 ∷ []), member-insert_function f2 f2 (f1 ∷ []))
add_duplicate-listed n f1 f2 m g ((k, fs) ∷ dups) =
    let (a, b, c) = add_duplicate-listed n f1 f2 m g dups in
    ground (arith, a, b, c, member-insert_function g f2 fs, member-insert_function f2 f2 fs)

pub match_name-listed :
    (n f1 f2 : ℕ) (pipes2 : List ℕ) (m g : ℕ) (dups : DuplicatePipes)
    → (is_listed m g dups ≡ true → is_listed m g (match_name n f1 f2 pipes2 dups) ≡ true)
      × (member n pipes2 ≡ true → is_listed n f2 (match_name n f1 f2 pipes2 dups) ≡ true)
      × (is_listed m g (match_name n f1 f2 pipes2 dups) ≡ true
          → (is_listed m g dups || (member n pipes2 && (n == m) && ((f1 == g) || (f2 == g))))
            ≡ true)
unfolding match_name
match_name-listed n f1 f2 [] m g dups = ground arith
match_name-listed n f1 f2 (k ∷ pipes2) m g dups =
    let (a, b, c) = match_name-listed n f1 f2 pipes2 m g dups in
    let (a', b', c') = add_duplicate-listed n f1 f2 m g dups in ground (arith, a, b, c, a', b', c')

match_names-kept :
    (pipes1 : List ℕ) (f1 f2 : ℕ) (pipes2 : List ℕ) (m g : ℕ) (dups : DuplicatePipes)
    → is_listed m g dups ≡ true
    → is_listed m g (match_names pipes1 f1 f2 pipes2 dups) ≡ true
unfolding match_names
match_names-kept [] f1 f2 pipes2 m g dups h = h
match_names-kept (n ∷ pipes1) f1 f2 pipes2 m g dups h =
    match_names-kept pipes1 f1 f2 pipes2 m g (match_name n f1 f2 pipes2 dups)
      ((match_name-listed n f1 f2 pipes2 m g dups).0 h)

match_names-added :
    (pipes1 : List ℕ) (f1 f2 : ℕ) (pipes2 : List ℕ) (m : ℕ) (dups : DuplicatePipes)
    → member m pipes1 ≡ true
    → member m pipes2 ≡ true
    → is_listed m f2 (match_names pipes1 f1 f2 pipes2 dups) ≡ true
unfolding match_names
match_names-added [] f1 f2 pipes2 m dups h k = (let no : ⊥ = cc in elim no [ ])
match_names-added (n ∷ pipes1) f1 f2 pipes2 m dups h k = elim (Bool-cases (n == m)) [
  | inl same ↦
      (let e : n ≡ m = ground arith in
        match_names-kept pipes1 f1 f2 pipes2 m f2 (match_name n f1 f2 pipes2 dups)
          (rw e ((match_name-listed m f1 f2 pipes2 m f2 dups).1 k)))
  | inr other ↦
      match_names-added pipes1 f1 f2 pipes2 m (match_name n f1 f2 pipes2 dups) (ground arith) k
]

match_kernels-kept :
    (f1 : ℕ) (pipes1 : List ℕ) (rest : PipesInFunc) (m g : ℕ) (dups : DuplicatePipes)
    → is_listed m g dups ≡ true
    → is_listed m g (match_kernels f1 pipes1 rest dups) ≡ true
unfolding match_kernels
match_kernels-kept f1 pipes1 [] m g dups h = h
match_kernels-kept f1 pipes1 ((f2, pipes2) ∷ rest) m g dups h =
    let same = match_kernels-kept f1 pipes1 rest m g dups h in
    let more =
      match_kernels-kept f1 pipes1 rest m g (match_names pipes1 f1 f2 pipes2 dups)
        (match_names-kept pipes1 f1 f2 pipes2 m g dups h) in
    ground (arith, same, more)

match_kernels-added :
    (f1 : ℕ) (pipes1 : List ℕ) (rest : PipesInFunc) (m g : ℕ) (dups : DuplicatePipes)
    → member m pipes1 ≡ true
    → (f1 == g) ≡ false
    → has_pipe m g rest ≡ true
    → is_listed m g (match_kernels f1 pipes1 rest dups) ≡ true
unfolding match_kernels
match_kernels-added f1 pipes1 [] m g dups h ne k = (let no : ⊥ = cc in elim no [ ])
match_kernels-added f1 pipes1 ((f2, pipes2) ∷ rest) m g dups h ne k =
    let next : DuplicatePipes = if f1 == f2 then dups else match_names pipes1 f1 f2 pipes2 dups in
    let same = match_kernels-added f1 pipes1 rest m g dups h ne in
    let more = match_kernels-added f1 pipes1 rest m g (match_names pipes1 f1 f2 pipes2 dups) h ne in
    elim (Bool-cases ((f2 == g) && member m pipes2)) [
      | inl here ↦
          (let e : f2 ≡ g = ground arith in
            let added = match_names-added pipes1 f1 f2 pipes2 m dups h (ground arith) in
            let kept =
              match_kernels-kept f1 pipes1 rest m f2 (match_names pipes1 f1 f2 pipes2 dups) added in
            rw (sym e) (ground (arith, kept, rw (sym e) at (ne))))
      | inr later ↦ ground (arith, same, more)
    ]

match_all-kept :
    (rest all : PipesInFunc) (m g : ℕ) (dups : DuplicatePipes)
    → is_listed m g dups ≡ true
    → is_listed m g (match_all rest all dups) ≡ true
unfolding match_all
match_all-kept [] all m g dups h = h
match_all-kept ((f1, pipes1) ∷ rest) all m g dups h =
    match_all-kept rest all m g (match_kernels f1 pipes1 all dups)
      (match_kernels-kept f1 pipes1 all m g dups h)

pub match_all-added :
    (rest all : PipesInFunc) (m g : ℕ) (dups : DuplicatePipes)
    → other_has_pipe m g rest ≡ true
    → has_pipe m g all ≡ true
    → is_listed m g (match_all rest all dups) ≡ true
unfolding match_all
match_all-added [] all m g dups h k = (let no : ⊥ = cc in elim no [ ])
match_all-added ((f1, pipes1) ∷ rest) all m g dups h k =
    elim (Bool-cases (not (f1 == g) && member m pipes1)) [
      | inl here ↦
          match_all-kept rest all m g (match_kernels f1 pipes1 all dups)
            (match_kernels-added f1 pipes1 all m g dups (ground arith) (ground arith) k)
      | inr later ↦ match_all-added rest all m g (match_kernels f1 pipes1 all dups) (ground arith) k
    ]
