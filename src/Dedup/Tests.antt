-- ===== src/Dedup/Tests.antt =====
-- lib/PipeDeduplicationPass.cpp for a compute unit and two address generation units.
use elastic_sycl_hls.Prelude.{
  ℕ, ◌+◌, ◌≤◌, ◌<◌, ◌≡◌, refl, ◌==◌, true, false, not, ◌&&◌, if◌then◌else◌, none, some, [], ◌∷◌,
}
use elastic_sycl_hls.Dedup.{
  Names, PipesInFunc, Bodies, get_all_pipe_names, get_pipe_calls_with_name, add_duplicate,
  match_name, match_names, match_kernels, match_all, get_duplicate_pipes, delete_duplicate_writes,
}
use elastic_sycl_hls.Dedup.Duplicates.{is_listed}
use elastic_sycl_hls.Dedup.Shared.{is_shared, get_duplicate_pipes-is_listed}
use elastic_sycl_hls.Dedup.Deleted.{keep_unless, delete_duplicate_writes-get_duplicate_pipes}
use elastic_sycl_hls.Dedup.Forward.{forward_reads, calls_of, forward_reads-calls}

-- Kernel 0 is the compute unit. Name 50 is a read, 60 and 61 are writes.
abbrev pipe_names : Names
pipe_names = record { is_pipe_read = λ n. n == 50; is_agu = λ f. not (f == 0) }

abbrev kernel_bodies : Bodies
kernel_bodies f =
    if f == 0
    then (1, some 50) ∷ (2, none) ∷ (3, some 60) ∷ []
    else if f == 1
    then (4, some 50) ∷ (5, some 60) ∷ (6, some 61) ∷ []
    else (7, some 61) ∷ []

abbrev pipes_in_func : PipesInFunc
pipes_in_func = (0, 50 ∷ 60 ∷ []) ∷ (1, 50 ∷ 60 ∷ 61 ∷ []) ∷ (2, 61 ∷ []) ∷ []

names_of_compute_unit : get_all_pipe_names (kernel_bodies 0) ≡ 50 ∷ 60 ∷ []
unfolding get_all_pipe_names
names_of_compute_unit = refl

shared_names :
    get_duplicate_pipes pipes_in_func ≡ (50, 0 ∷ 1 ∷ []) ∷ (60, 0 ∷ 1 ∷ []) ∷ (61, 1 ∷ 2 ∷ []) ∷ []
unfolding get_duplicate_pipes match_all match_kernels match_names match_name add_duplicate
shared_names = refl

get_duplicate_pipes-is_listed_example :
    is_listed 60 1 (get_duplicate_pipes pipes_in_func) ≡ is_shared pipes_in_func 60 1
get_duplicate_pipes-is_listed_example = get_duplicate_pipes-is_listed pipes_in_func 60 1

delete_duplicate_writes-get_duplicate_pipes_example :
    delete_duplicate_writes pipe_names (get_duplicate_pipes pipes_in_func) kernel_bodies 1
    ≡ keep_unless
        (λ m. true && not (m == 50) && is_shared pipes_in_func m 1)
        ((4, some 50) ∷ (5, some 60) ∷ (6, some 61) ∷ [])
delete_duplicate_writes-get_duplicate_pipes_example =
    delete_duplicate_writes-get_duplicate_pipes pipe_names pipes_in_func kernel_bodies 1

forward_reads-calls_example :
    (calls_of 50 (kernel_bodies 1) ≤ calls_of 50 (kernel_bodies 0)
      → (after : Bodies) × (forward_reads 50 70 71 1 0 kernel_bodies ≡ some after)
        × (calls_of 50 (after 1) ≡ calls_of 50 (kernel_bodies 1))
        × (calls_of 70 (after 1) ≡ calls_of 50 (kernel_bodies 1))
        × (calls_of 71 (after 0) ≡ calls_of 50 (kernel_bodies 1))
        × (calls_of 50 (after 0) + calls_of 50 (kernel_bodies 1) ≡ calls_of 50 (kernel_bodies 0))
        × ((f : ℕ) → (f == 1) ≡ false → (f == 0) ≡ false → after f ≡ kernel_bodies f))
    × (calls_of 50 (kernel_bodies 0) < calls_of 50 (kernel_bodies 1)
        → forward_reads 50 70 71 1 0 kernel_bodies ≡ none)
unfolding get_pipe_calls_with_name
forward_reads-calls_example =
    forward_reads-calls 50 70 71 1 0 kernel_bodies refl refl refl refl refl
