-- ===== src/Helpers/PipeCalls.antt =====
-- getPipeCall of include/CommonLLVM.h, whose static map counts the calls that were returned for each
-- kernel, pipe name and index pack; and the searches of getPipeWithPattern. A call is a number, and
-- the regular expressions are a test on calls.
use elastic_sycl_hls.Prelude.{
  ℕ, zero, suc, ◌+◌, ◌≡◌, refl, ap, ◌∙◌, arith, ◌==◌, Bool, if◌then◌else◌, Option, none, some, List,
  [], ◌∷◌, get_elem?,
}
use elastic_sycl_hls.Prelude.Members.{filter}

-- `static StringMap<int> collectedCalls`
abbrev pub CallCounts : Type 0
CallCounts = List (ℕ × ℕ)

-- `collectedCalls[key]`, 0 if the map does not contain the key.
unfoldable pub pipe_calls_to_skip : ℕ → CallCounts → ℕ
pipe_calls_to_skip key [] = 0
pipe_calls_to_skip key ((k, n) ∷ counts) = if k == key then n else pipe_calls_to_skip key counts

-- `collectedCalls[key]++`, or `= 1` for a new key.
unfoldable pub count_call : ℕ → CallCounts → CallCounts
count_call key [] = (key, 1) ∷ []
count_call key ((k, n) ∷ counts) =
    if k == key then (k, suc n) ∷ counts else (k, n) ∷ count_call key counts

-- What a request asks for: its key, and the pipe calls of the kernel with the test `isThisPipe`.
pub record PipeRequest : Type 0 where
  pub pipe_id_key : ℕ
  pub pipe_calls : List ℕ
  pub is_this_pipe : ℕ → Bool

-- The loops over the instructions, the first number being `numCallsSkipped`.
unfoldable pub find_call : (ℕ → Bool) → ℕ → ℕ → List ℕ → Option ℕ
find_call is_this_pipe skipped to_skip [] = none
find_call is_this_pipe skipped to_skip (c ∷ cs) =
    let next = find_call is_this_pipe (suc skipped) to_skip cs in
    let same = find_call is_this_pipe skipped to_skip cs in
    if is_this_pipe c then if skipped == to_skip then some c else next else same

-- The counts after the call, and the result; `none` is the failed assertion.
unfoldable pub get_pipe_call : PipeRequest → CallCounts → CallCounts × Option ℕ
get_pipe_call r counts = (
  count_call r.pipe_id_key counts,
  find_call r.is_this_pipe 0 (pipe_calls_to_skip r.pipe_id_key counts) r.pipe_calls,
)

-- A sequence of requests.
abbrev pub get_pipe_calls : List PipeRequest → CallCounts → List (Option ℕ)
get_pipe_calls [] counts = []
get_pipe_calls (r ∷ rs) counts =
    (get_pipe_call r counts).1 ∷ get_pipe_calls rs (get_pipe_call r counts).0

-- The number of requests with a key among the first `n`.
abbrev pub requests_before : ℕ → ℕ → List PipeRequest → ℕ
requests_before key n [] = 0
requests_before key zero (r ∷ rs) = 0
requests_before key (suc n) (r ∷ rs) =
    (if r.pipe_id_key == key then 1 else 0) + requests_before key n rs

find_call-get_elem? :
    (p : ℕ → Bool) (skipped k : ℕ) (cs : List ℕ)
    → find_call p skipped (skipped + k) cs ≡ get_elem? (filter p cs) k
unfolding find_call
find_call-get_elem? p skipped k [] = refl
find_call-get_elem? p skipped zero (c ∷ cs) = ground (arith, find_call-get_elem? p skipped zero cs)
find_call-get_elem? p skipped (suc k) (c ∷ cs) =
    ground
      (arith, find_call-get_elem? p (suc skipped) k cs, find_call-get_elem? p skipped (suc k) cs)

pipe_calls_to_skip-count_call :
    (key k : ℕ) (counts : CallCounts)
    → pipe_calls_to_skip k (count_call key counts)
      ≡ (if key == k then 1 else 0) + pipe_calls_to_skip k counts
unfolding pipe_calls_to_skip count_call
pipe_calls_to_skip-count_call key k [] = ground arith
pipe_calls_to_skip-count_call key k ((k', n) ∷ counts) =
    ground (arith, pipe_calls_to_skip-count_call key k counts)

get_pipe_calls-from :
    (rs : List PipeRequest) (counts : CallCounts) (n : ℕ) (r : PipeRequest)
    → get_elem? rs n ≡ some r
    → get_elem? (get_pipe_calls rs counts) n
      ≡ some (
          get_elem?
            (filter r.is_this_pipe r.pipe_calls)
            (requests_before r.pipe_id_key n rs + pipe_calls_to_skip r.pipe_id_key counts))
unfolding get_pipe_call
get_pipe_calls-from [] counts n r e = (let no : ⊥ = cc in elim no [ ])
get_pipe_calls-from (q ∷ rs) counts zero r e =
    let same : q ≡ r = ground arith in
    rw same (
      ground (
        arith,
        find_call-get_elem? r.is_this_pipe 0 (pipe_calls_to_skip r.pipe_id_key counts) r.pipe_calls,
      ))
get_pipe_calls-from (q ∷ rs) counts (suc n) r e =
    get_pipe_calls-from rs (count_call q.pipe_id_key counts) n r e
    ∙ ap (λ k. some (get_elem? (filter r.is_this_pipe r.pipe_calls) k))
        (omega (arith, pipe_calls_to_skip-count_call q.pipe_id_key r.pipe_id_key counts))

-- In a sequence of requests, from the empty map on, the next request with a key returns the next of
-- the matching calls: the n-th such request returns the n-th matching call, and fails if there are
-- not that many.
pub get_pipe_calls-get_elem? :
    (rs : List PipeRequest) (n : ℕ) (r : PipeRequest)
    → get_elem? rs n ≡ some r
    → get_elem? (get_pipe_calls rs []) n
      ≡ some (get_elem? (filter r.is_this_pipe r.pipe_calls) (requests_before r.pipe_id_key n rs))
unfolding pipe_calls_to_skip
get_pipe_calls-get_elem? rs n r e =
    get_pipe_calls-from rs [] n r e
    ∙ ap (λ k. some (get_elem? (filter r.is_this_pipe r.pipe_calls) k)) (omega arith)
