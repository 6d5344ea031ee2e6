-- ===== src/Dedup/Forward.antt =====
-- forwardDuplicatedReads of lib/PipeDeduplicationPass.cpp: one kernel keeps its reads of a pipe and
-- relays each value to the others over new pipes.
use elastic_sycl_hls.Prelude.{
  ℕ, zero, suc, ◌+◌, ◌≤◌, ◌<◌, ◌≡◌, inl, inr, refl, arith, ◌==◌, true, false, if◌then◌else◌, Option,
  none, some, List, [], ◌∷◌, length, Bool-cases, ◌>>=◌,
}
use elastic_sycl_hls.Dedup.{PipeInstruction, Bodies, calls_pipe, get_pipe_calls_with_name}

-- After each read in the source a write of its value to the new pipe, given as a call with the number
-- of the read.
unfoldable pub relay_reads : ℕ → ℕ → List PipeInstruction → List PipeInstruction
relay_reads read write [] = []
relay_reads read write ((i, o) ∷ is) =
    let rest = relay_reads read write is in
    if calls_pipe read o then (i, o) ∷ (i, some write) ∷ rest else (i, o) ∷ rest

-- The first reads in the destination, as many as there are in the source, read from the new pipe.
-- `none` is an index behind the end of `ReadsInDst`.
unfoldable pub redirect_reads : ℕ → ℕ → ℕ → List PipeInstruction → Option (List PipeInstruction)
redirect_reads read new zero is = some is
redirect_reads read new (suc k) [] = none
redirect_reads read new (suc k) ((i, o) ∷ is) =
    let rest = redirect_reads read new (suc k) is in
    let fewer = redirect_reads read new k is in
    if calls_pipe read o
    then (do is' ← fewer; some ((i, some new) ∷ is'))
    else (do is' ← rest; some ((i, o) ∷ is'))

-- The loop body for one destination, with the names of the copied write and read functions.
unfoldable pub forward_reads : ℕ → ℕ → ℕ → ℕ → ℕ → Bodies → Option Bodies
forward_reads read write new src dst bodies = do
  is' ← redirect_reads read new (length (get_pipe_calls_with_name (bodies src) read)) (bodies dst)
  some (λ f.
      if f == src then relay_reads read write (bodies src) else if f == dst then is' else bodies f)

abbrev pub calls_of : ℕ → List PipeInstruction → ℕ
calls_of n is = length (get_pipe_calls_with_name is n)

relay_reads-calls :
    (read write : ℕ) (is : List PipeInstruction)
    → (read == write) ≡ false
    → (calls_of read (relay_reads read write is) ≡ calls_of read is)
      × (calls_of write (relay_reads read write is) ≡ calls_of read is + calls_of write is)
unfolding relay_reads get_pipe_calls_with_name
relay_reads-calls read write [] ne = ground arith
relay_reads-calls read write ((i, none) ∷ is) ne =
    let (a, b) = relay_reads-calls read write is ne in ground (arith, a, b)
relay_reads-calls read write ((i, some n) ∷ is) ne =
    let (a, b) = relay_reads-calls read write is ne in ground (arith, a, b)

redirect_reads-calls :
    (read new k : ℕ) (is : List PipeInstruction)
    → (read == new) ≡ false
    → k ≤ calls_of read is
    → (is' : List PipeInstruction) × (redirect_reads read new k is ≡ some is')
      × (calls_of read is' + k ≡ calls_of read is)
      × (calls_of new is' ≡ k + calls_of new is)
unfolding redirect_reads get_pipe_calls_with_name
redirect_reads-calls read new zero is ne le = (is, refl, ground arith, ground arith)
redirect_reads-calls read new (suc k) [] ne le = (let no : ⊥ = ground arith in elim no [ ])
redirect_reads-calls read new (suc k) ((i, none) ∷ is) ne le =
    let (is', e, a, b) = redirect_reads-calls read new (suc k) is ne le in
    ((i, none) ∷ is', ground (arith, e), a, b)
redirect_reads-calls read new (suc k) ((i, some n) ∷ is) ne le = elim (Bool-cases (n == read)) [
  | inl here ↦
      (let (is', e, a, b) = redirect_reads-calls read new k is ne (ground arith) in
        ((i, some new) ∷ is', ground (arith, e), ground (arith, a), ground (arith, b)))
  | inr other ↦
      (let (is', e, a, b) = redirect_reads-calls read new (suc k) is ne (ground arith) in
        ((i, some n) ∷ is', ground (arith, e), ground (arith, a), ground (arith, b)))
]

redirect_reads-short :
    (read new k : ℕ) (is : List PipeInstruction)
    → calls_of read is < k
    → redirect_reads read new k is ≡ none
unfolding redirect_reads get_pipe_calls_with_name
redirect_reads-short read new zero is lt = (let no : ⊥ = omega arith in elim no [ ])
redirect_reads-short read new (suc k) [] lt = refl
redirect_reads-short read new (suc k) ((i, none) ∷ is) lt =
    ground (arith, redirect_reads-short read new (suc k) is lt)
redirect_reads-short read new (suc k) ((i, some n) ∷ is) lt = elim (Bool-cases (n == read)) [
  | inl here ↦ ground (arith, redirect_reads-short read new k is (ground arith))
  | inr other ↦ ground (arith, redirect_reads-short read new (suc k) is (ground arith))
]

-- One kernel relays its reads of a pipe to another, over a new pipe whose write and read no body
-- calls yet. If the destination reads at least as often as the source, the source keeps its reads and
-- writes as often to the new pipe, the destination reads as often from it and that much less from the
-- old one, and no other kernel changes. Otherwise an index runs behind the end of the
-- destination's reads.
pub forward_reads-calls :
    (read write new src dst : ℕ) (bodies : Bodies)
    → (src == dst) ≡ false
    → (read == write) ≡ false
    → (read == new) ≡ false
    → calls_of write (bodies src) ≡ 0
    → calls_of new (bodies dst) ≡ 0
    → (calls_of read (bodies src) ≤ calls_of read (bodies dst)
        → (after : Bodies) × (forward_reads read write new src dst bodies ≡ some after)
          × (calls_of read (after src) ≡ calls_of read (bodies src))
          × (calls_of write (after src) ≡ calls_of read (bodies src))
          × (calls_of new (after dst) ≡ calls_of read (bodies src))
          × (calls_of read (after dst) + calls_of read (bodies src) ≡ calls_of read (bodies dst))
          × ((f : ℕ) → (f == src) ≡ false → (f == dst) ≡ false → after f ≡ bodies f))
      × (calls_of read (bodies dst) < calls_of read (bodies src)
          → forward_reads read write new src dst bodies ≡ none)
unfolding forward_reads
forward_reads-calls read write new src dst bodies apart ne ne' no_write no_read = (
  λ le.
      (let (is', e, a, b) =
          redirect_reads-calls read new (calls_of read (bodies src)) (bodies dst) ne' le in
        let (kept, written) = relay_reads-calls read write (bodies src) ne in
        let at_src : (src == src) ≡ true = ground arith in
        let at_dst : (dst == dst) ≡ true = ground arith in
        let not_src : (dst == src) ≡ false = ground arith in
        (
          λ f.
              if f == src
              then relay_reads read write (bodies src)
              else if f == dst
              then is'
              else bodies f,
          rw e refl,
          rw at_src kept,
          rw at_src (ground (arith, written)),
          rw (not_src, at_dst) (ground (arith, b)),
          rw (not_src, at_dst) a,
          λ f no_src no_dst. rw (no_src, no_dst) refl,
        )),
  λ lt. rw (redirect_reads-short read new (calls_of read (bodies src)) (bodies dst) lt) refl,
)
