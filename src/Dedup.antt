-- ===== src/Dedup.antt =====
-- lib/PipeDeduplicationPass.cpp: pipe operations that several kernels share. A kernel and the name of
-- a pipe operation are numbers. The tests of names, searches in their text, are fields of a record.
pub mod Duplicates
pub mod Shared
pub mod Deleted
pub mod Source
pub mod Forward
mod Tests
use elastic_sycl_hls.Prelude.{
  ℕ, zero, suc, ◌==◌, Bool, true, false, not, ◌&&◌, ◌||◌, if◌then◌else◌, Option, none, some, List,
  [], ◌∷◌, ◌++◌,
}
use elastic_sycl_hls.Prelude.Members.{any, member}

-- An instruction with the name of its pipe operation, if it is a call of one.
abbrev pub PipeInstruction : Type 0
PipeInstruction = ℕ × Option ℕ

-- The text searches `isPipeRead` on names and `isSpirKernelWithSubstring(F, AGU_KERNEL)` on kernels.
pub record Names : Type 0 where
  pub is_pipe_read : ℕ → Bool
  pub is_agu : ℕ → Bool

unfoldable pub get_all_pipe_names : List PipeInstruction → List ℕ
get_all_pipe_names [] = []
get_all_pipe_names ((i, none) ∷ is) = get_all_pipe_names is
get_all_pipe_names ((i, some n) ∷ is) = n ∷ get_all_pipe_names is

abbrev pub calls_pipe : ℕ → Option ℕ → Bool
calls_pipe n none = false
calls_pipe n (some m) = m == n

unfoldable pub get_pipe_calls_with_name : List PipeInstruction → ℕ → List ℕ
get_pipe_calls_with_name [] n = []
get_pipe_calls_with_name ((i, o) ∷ is) n =
    if calls_pipe n o then i ∷ get_pipe_calls_with_name is n else get_pipe_calls_with_name is n

-- `DuplicatePipes`: names with the kernels that share them.
abbrev pub DuplicatePipes : Type 0
DuplicatePipes = List (ℕ × List ℕ)

abbrev pub insert_function : ℕ → List ℕ → List ℕ
insert_function f fs = if member f fs then fs else fs ++ f ∷ []

-- The body of the innermost `if`: a new name starts with the first kernel.
unfoldable pub add_duplicate : ℕ → ℕ → ℕ → DuplicatePipes → DuplicatePipes
add_duplicate n f1 f2 [] = (n, insert_function f2 (f1 ∷ [])) ∷ []
add_duplicate n f1 f2 ((k, fs) ∷ dups) =
    if k == n then (k, insert_function f2 fs) ∷ dups else (k, fs) ∷ add_duplicate n f1 f2 dups

-- The loop over the names of the second kernel, left at the first match.
unfoldable pub match_name : ℕ → ℕ → ℕ → List ℕ → DuplicatePipes → DuplicatePipes
match_name n f1 f2 [] dups = dups
match_name n f1 f2 (m ∷ pipes2) dups =
    if n == m then add_duplicate n f1 f2 dups else match_name n f1 f2 pipes2 dups

unfoldable pub match_names : List ℕ → ℕ → ℕ → List ℕ → DuplicatePipes → DuplicatePipes
match_names [] f1 f2 pipes2 dups = dups
match_names (n ∷ pipes1) f1 f2 pipes2 dups =
    match_names pipes1 f1 f2 pipes2 (match_name n f1 f2 pipes2 dups)

-- `PipesInFunc`: the kernels with the names of their pipe operations.
abbrev pub PipesInFunc : Type 0
PipesInFunc = List (ℕ × List ℕ)

unfoldable pub match_kernels : ℕ → List ℕ → PipesInFunc → DuplicatePipes → DuplicatePipes
match_kernels f1 pipes1 [] dups = dups
match_kernels f1 pipes1 ((f2, pipes2) ∷ rest) dups =
    if f1 == f2
    then match_kernels f1 pipes1 rest dups
    else match_kernels f1 pipes1 rest (match_names pipes1 f1 f2 pipes2 dups)

unfoldable pub match_all : PipesInFunc → PipesInFunc → DuplicatePipes → DuplicatePipes
match_all [] all dups = dups
match_all ((f1, pipes1) ∷ rest) all dups = match_all rest all (match_kernels f1 pipes1 all dups)

unfoldable pub get_duplicate_pipes : PipesInFunc → DuplicatePipes
get_duplicate_pipes pipes = match_all pipes pipes []

-- The bodies of the kernels.
abbrev pub Bodies : Type 0
Bodies = ℕ → List PipeInstruction

unfoldable pub delete_calls : ℕ → List PipeInstruction → List PipeInstruction
delete_calls n [] = []
delete_calls n ((i, o) ∷ is) =
    if calls_pipe n o then delete_calls n is else (i, o) ∷ delete_calls n is

module _ (v : Names) where
  -- The loop over the kernels of one name.
  unfoldable pub delete_in_kernels : ℕ → List ℕ → Bodies → Bodies
  delete_in_kernels n [] bodies = bodies
  delete_in_kernels n (f ∷ fs) bodies =
      delete_in_kernels n fs (
        if v.is_agu f
        then (λ g. if f == g then delete_calls n (bodies g) else bodies g)
        else bodies)

  unfoldable pub delete_duplicate_writes : DuplicatePipes → Bodies → Bodies
  delete_duplicate_writes [] bodies = bodies
  delete_duplicate_writes ((n, fs) ∷ dups) bodies =
      delete_duplicate_writes dups
        (if v.is_pipe_read n then bodies else delete_in_kernels n fs bodies)
