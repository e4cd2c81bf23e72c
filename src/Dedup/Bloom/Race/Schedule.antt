-- ===== src/Dedup/Bloom/Race/Schedule.antt =====
-- Schedules of the threads of a Bloom filter (app/vmestimator/deduplicator.go), as lists.
use vmestimator.Base.{
  ℕ, ◌≡◌, ltb, ltb→lt, some, some_inj, List, [], ◌∷◌, Option-cases, Bool-cases, inl, inr,
}
use vmestimator.Dedup.Bloom.Race.{move, System, Step, pick, Reach, start, later, play}
use mathlib.Core.Path.{subst}

before : {n : ℕ} {s t u : System} → Step n s t → Reach n t u → Reach n s u
before one start = later start one
before one (later r last) = later (before one r) last

-- What a list of threads plays is reached.
pub play-Reach : (n : ℕ) (is : List ℕ) (s t : System) → play n is s ≡ some t → Reach n s t
unfolding play
play-Reach n [] s t e = subst (Reach n s) (some_inj e) start
play-Reach n (i ∷ is) s t e = elim (Bool-cases (ltb i n)) [
  | inr out ↦ cc (rw out at e)
  | inl ok ↦ elim (Option-cases (move s.filter (s.pc i))) [
    | inl panic ↦ cc (rw (ok, panic) at e)
    | inr (r, runs) ↦
        before (pick i (r.0) (r.1) (ltb→lt i n ok) runs) (play-Reach n is _ t (rw (ok, runs) at e))
  ]
]
