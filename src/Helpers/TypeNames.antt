-- ===== src/Helpers/TypeNames.antt =====
-- getCTypeString of include/CommonLLVM.h, which finds the C type of a value in the text of its LLVM
-- type. A text is a list of character codes.
use elastic_sycl_hls.Prelude.{
  ℕ, ◌≡◌, ◌≢◌, arith, ◌==◌, Bool, true, false, ◌&&◌, ◌||◌, if◌then◌else◌, List, [], ◌∷◌,
}

abbrev pub Text : Type 0
Text = List ℕ

abbrev pub starts_with : Text → Text → Bool
starts_with [] t = true
starts_with (c ∷ cs) [] = false
starts_with (c ∷ cs) (d ∷ ds) = (c == d) && starts_with cs ds

-- `t.find(s) != npos`
abbrev pub has_text : Text → Text → Bool
has_text s [] = starts_with s []
has_text s (d ∷ ds) = starts_with s (d ∷ ds) || has_text s ds

-- "i1", "i8", "i16", "i32", "i64" and "addrspace" in ASCII
abbrev i1 : Text
i1 = 105 ∷ 49 ∷ []

abbrev i8 : Text
i8 = 105 ∷ 56 ∷ []

abbrev pub i16 : Text
i16 = 105 ∷ 49 ∷ 54 ∷ []

abbrev i32 : Text
i32 = 105 ∷ 51 ∷ 50 ∷ []

abbrev i64 : Text
i64 = 105 ∷ 54 ∷ 52 ∷ []

abbrev addrspace : Text
addrspace = 97 ∷ 100 ∷ 100 ∷ 114 ∷ 115 ∷ 112 ∷ 97 ∷ 99 ∷ 101 ∷ []

-- The C types that the function names; else it returns the text of the LLVM type.
pub data CType : Type 0 where
  bool_type : CType
  signed_char : CType
  signed_short : CType
  int_type : CType
  signed_long_int : CType
  int64_type : CType
  llvm_type : Text → CType

unfoldable pub get_c_type_string : Text → CType
get_c_type_string t =
    if has_text i1 t
    then CType.bool_type
    else if has_text i8 t
    then CType.signed_char
    else if has_text i16 t
    then CType.signed_short
    else if has_text i32 t
    then CType.int_type
    else if has_text i64 t
    then CType.signed_long_int
    else if has_text addrspace t
    then CType.int64_type
    else CType.llvm_type t

i1-of_i16 : (t : Text) → starts_with i16 t ≡ true → starts_with i1 t ≡ true
i1-of_i16 [] e = ground arith
i1-of_i16 (a ∷ []) e = ground arith
i1-of_i16 (a ∷ b ∷ t) e = ground arith

has_i1 : (t : Text) → has_text i16 t ≡ true → has_text i1 t ≡ true
has_i1 [] e = ground arith
has_i1 (d ∷ ds) e = ground (arith, i1-of_i16 (d ∷ ds), has_i1 ds)

-- getCTypeString gives no text the type `signed short`, and every text with "i16" in it the type
-- `bool`: it looks for "i1" first.
pub get_c_type_string-i16 :
    (t : Text)
    → (get_c_type_string t ≢ CType.signed_short)
      × (has_text i16 t ≡ true → get_c_type_string t ≡ CType.bool_type)
unfolding get_c_type_string
get_c_type_string-i16 t = (
  λ e. (let no : ⊥ = ground (arith, has_i1 t) in elim no [ ]),
  λ has. ground (arith, has_i1 t has),
)
