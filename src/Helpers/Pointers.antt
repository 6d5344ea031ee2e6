-- ===== src/Helpers/Pointers.antt =====
-- getPointerBase of include/CommonLLVM.h, which follows a pointer through casts, loads and element
-- pointers. Instructions are numbers; `none` as an instruction is the null pointer of a failed cast.
use elastic_sycl_hls.Prelude.{
  ℕ, zero, suc, ◌<◌, ◌≡◌, ◌⊎◌, ◌↔◌, inl, inr, refl, sym, arith, Bool, true, false, not, ◌&&◌,
  if◌then◌else◌, Option, none, some, Bool-cases,
}

-- An instruction as a pointer, with the instruction that its pointer operand is.
pub data PointerKind : Type 0 where
  bit_cast : Option ℕ → PointerKind
  load_from : Option ℕ → PointerKind
  -- The second argument: does the operand point to the struct of kernel arguments?
  element_of : Option ℕ → Bool → PointerKind
  other_pointer : PointerKind

pub record PointerView : Type 0 where
  pub kind : ℕ → PointerKind
  pub is_in_entry_block : ℕ → Bool

abbrev pub is_element : PointerKind → Bool
is_element (element_of o args) = true
is_element k = false

abbrev pub operand_of : PointerKind → Option (Option ℕ)
operand_of (bit_cast o) = some o
operand_of (load_from o) = some o
operand_of (element_of o args) = if args then none else some o
operand_of other_pointer = none

pointer_cases :
    (o : Option (Option ℕ)) → (o ≡ none) ⊎ ((o ≡ some none) ⊎ ((j : ℕ) × (o ≡ some (some j))))
pointer_cases none = inl refl
pointer_cases (some none) = inr (inl refl)
pointer_cases (some (some j)) = inr (inr (j, refl))

module _ (v : PointerView) where
  -- The operand to go on with, or `none` where the function stops.
  unfoldable pub next_pointer : ℕ → Option (Option ℕ)
  next_pointer i =
      if v.is_in_entry_block i && not (is_element (v.kind i)) then none else operand_of (v.kind i)

  -- `none` where a null pointer is followed, or the fuel is out.
  unfoldable pub get_pointer_base : ℕ → Option ℕ → Option ℕ
  get_pointer_base zero p = none
  get_pointer_base (suc fuel) none = none
  get_pointer_base (suc fuel) (some i) = elim (next_pointer i) [
    | none ↦ some i
    | some o ↦ get_pointer_base fuel o
  ]

  -- A cast or load outside the entry block, or an element pointer outside the kernel arguments, and
  -- the instruction that its pointer operand is.
  pub data Follows (i j : ℕ) : Type 0 where
    of_cast : v.kind i ≡ bit_cast (some j) → v.is_in_entry_block i ≡ false → Follows i j
    of_load : v.kind i ≡ load_from (some j) → v.is_in_entry_block i ≡ false → Follows i j
    of_element : v.kind i ≡ element_of (some j) false → Follows i j

  -- An instruction at which a pointer stops.
  pub data Stops (i : ℕ) : Type 0 where
    at_cast : (o : Option ℕ) → v.kind i ≡ bit_cast o → v.is_in_entry_block i ≡ true → Stops i
    at_load : (o : Option ℕ) → v.kind i ≡ load_from o → v.is_in_entry_block i ≡ true → Stops i
    at_arguments : (o : Option ℕ) → v.kind i ≡ element_of o true → Stops i
    at_other : v.kind i ≡ other_pointer → Stops i

  pub data BaseOf : ℕ → ℕ → Type 0 where
    stops : (i : ℕ) → Stops i → BaseOf i i
    follows : (i j b : ℕ) → Follows i j → BaseOf j b → BaseOf i b

  -- An instruction comes after the operands that its pointer is followed to.
  abbrev pub IsOrdered : (ℕ → ℕ) → Type 0
  IsOrdered rank = (i j : ℕ) → Follows i j → rank j < rank i

  Stops-next_pointer : (i : ℕ) → Stops i → next_pointer i ≡ none
  unfolding next_pointer
  Stops-next_pointer i (Stops.at_cast o k e) = rw (next_pointer, k, e) refl
  Stops-next_pointer i (Stops.at_load o k e) = rw (next_pointer, k, e) refl
  Stops-next_pointer i (Stops.at_arguments o k) = elim (Bool-cases (v.is_in_entry_block i)) [
    | inl e ↦ rw (next_pointer, k, e) refl
    | inr e ↦ rw (next_pointer, k, e) refl
  ]
  Stops-next_pointer i (Stops.at_other k) = elim (Bool-cases (v.is_in_entry_block i)) [
    | inl e ↦ rw (next_pointer, k, e) refl
    | inr e ↦ rw (next_pointer, k, e) refl
  ]

  pub Follows-next_pointer : (i j : ℕ) → Follows i j → next_pointer i ≡ some (some j)
  unfolding next_pointer
  Follows-next_pointer i j (Follows.of_cast k e) = rw (next_pointer, k, e) refl
  Follows-next_pointer i j (Follows.of_load k e) = rw (next_pointer, k, e) refl
  Follows-next_pointer i j (Follows.of_element k) = elim (Bool-cases (v.is_in_entry_block i)) [
    | inl e ↦ rw (next_pointer, k, e) refl
    | inr e ↦ rw (next_pointer, k, e) refl
  ]

  abbrev next_of : Bool → PointerKind → Option (Option ℕ)
  next_of entry k = if entry && not (is_element k) then none else operand_of k

  next_pointer-Stops :
      (i : ℕ) (entry : Bool) (k : PointerKind)
      → v.is_in_entry_block i ≡ entry
      → v.kind i ≡ k
      → next_of entry k ≡ none
      → Stops i
  next_pointer-Stops i true (bit_cast o) e h n = Stops.at_cast o h e
  next_pointer-Stops i false (bit_cast o) e h n = (let no : ⊥ = cc in elim no [ ])
  next_pointer-Stops i true (load_from o) e h n = Stops.at_load o h e
  next_pointer-Stops i false (load_from o) e h n = (let no : ⊥ = cc in elim no [ ])
  next_pointer-Stops i entry (element_of o true) e h n = Stops.at_arguments o h
  next_pointer-Stops i true (element_of o false) e h n = (let no : ⊥ = cc in elim no [ ])
  next_pointer-Stops i false (element_of o false) e h n = (let no : ⊥ = cc in elim no [ ])
  next_pointer-Stops i entry other_pointer e h n = Stops.at_other h

  next_pointer-Follows :
      (i j : ℕ) (entry : Bool) (k : PointerKind)
      → v.is_in_entry_block i ≡ entry
      → v.kind i ≡ k
      → next_of entry k ≡ some (some j)
      → Follows i j
  next_pointer-Follows i j true (bit_cast o) e h n = (let no : ⊥ = cc in elim no [ ])
  next_pointer-Follows i j false (bit_cast o) e h n =
      let same : o ≡ some j = cc in Follows.of_cast (rw same at (h)) e
  next_pointer-Follows i j true (load_from o) e h n = (let no : ⊥ = cc in elim no [ ])
  next_pointer-Follows i j false (load_from o) e h n =
      let same : o ≡ some j = cc in Follows.of_load (rw same at (h)) e
  next_pointer-Follows i j true (element_of o true) e h n = (let no : ⊥ = cc in elim no [ ])
  next_pointer-Follows i j false (element_of o true) e h n = (let no : ⊥ = cc in elim no [ ])
  next_pointer-Follows i j true (element_of o false) e h n =
      let same : o ≡ some j = cc in Follows.of_element (rw same at (h))
  next_pointer-Follows i j false (element_of o false) e h n =
      let same : o ≡ some j = cc in Follows.of_element (rw same at (h))
  next_pointer-Follows i j true other_pointer e h n = (let no : ⊥ = cc in elim no [ ])
  next_pointer-Follows i j false other_pointer e h n = (let no : ⊥ = cc in elim no [ ])

  Stops-of_next : (i : ℕ) → next_pointer i ≡ none → Stops i
  unfolding next_pointer
  Stops-of_next i e = next_pointer-Stops i (v.is_in_entry_block i) (v.kind i) refl refl e

  Follows-of_next : (i j : ℕ) → next_pointer i ≡ some (some j) → Follows i j
  unfolding next_pointer
  Follows-of_next i j e = next_pointer-Follows i j (v.is_in_entry_block i) (v.kind i) refl refl e

  get_pointer_base-null : (fuel : ℕ) → get_pointer_base fuel none ≡ none
  unfolding get_pointer_base
  get_pointer_base-null zero = refl
  get_pointer_base-null (suc fuel) = refl

  get_pointer_base_sound : (fuel i b : ℕ) → get_pointer_base fuel (some i) ≡ some b → BaseOf i b
  unfolding get_pointer_base
  get_pointer_base_sound zero i b e = (let no : ⊥ = cc in elim no [ ])
  get_pointer_base_sound (suc fuel) i b e = elim (pointer_cases (next_pointer i)) [
    | inl at_end ↦
        (let same : i ≡ b = (let h = rw (get_pointer_base, at_end) at (e) in ground (arith, h)) in
          rw (sym same) (BaseOf.stops i (Stops-of_next i at_end)))
    | inr (inl null) ↦
        (let h = rw (get_pointer_base, null) at (e) in
          let no : ⊥ = ground (arith, h, get_pointer_base-null fuel) in elim no [ ])
    | inr (inr (j, next)) ↦
        BaseOf.follows i j b (Follows-of_next i j next)
          (get_pointer_base_sound fuel j b (rw (get_pointer_base, next) at (e)))
  ]

  get_pointer_base_complete :
      (rank : ℕ → ℕ) (fuel i b : ℕ)
      → IsOrdered rank
      → rank i < fuel
      → BaseOf i b
      → get_pointer_base fuel (some i) ≡ some b
  unfolding get_pointer_base
  get_pointer_base_complete rank zero i b ordered lt base =
      (let no : ⊥ = omega arith in elim no [ ])
  get_pointer_base_complete rank (suc fuel) i _ ordered lt (BaseOf.stops _ at_end) =
      rw (get_pointer_base, Stops-next_pointer i at_end) refl
  get_pointer_base_complete rank (suc fuel) i b ordered lt (BaseOf.follows _ j _ next base) =
      let least : rank j < fuel = omega (arith, ordered i j next) in
      rw (get_pointer_base, Follows-next_pointer i j next)
        (get_pointer_base_complete rank fuel j b ordered least base)

-- getPointerBase returns, where each instruction comes after the operand that it is followed to, the
-- instruction at which the pointer stops: a cast or load of the entry block, an element pointer into
-- the kernel arguments, or an instruction that is no cast, load or element pointer. It follows a null pointer exactly if there is no such instruction.
pub get_pointer_base_iff :
    (v : PointerView) (rank : ℕ → ℕ) (fuel i b : ℕ)
    → IsOrdered v rank
    → rank i < fuel
    → (get_pointer_base v fuel (some i) ≡ some b) ↔ BaseOf v i b
get_pointer_base_iff v rank fuel i b ordered lt =
    (get_pointer_base_sound v fuel i b, get_pointer_base_complete v rank fuel i b ordered lt)
