-- ===== src/Dedup/Bloom/Race/Count.antt =====
-- The threads of a Bloom filter (app/vmestimator/deduplicator.go) that have returned from `add` with
-- a new hash, counted.
use vmestimator.Base.{
  ℕ, zero, suc, ◌+◌, ◌<◌, ◌≤◌, ◌≡◌, refl, ◌==◌, nat_eq, Bool, true, false, arith, Bool-cases, inl,
  inr, nat_beq_iff,
}
use vmestimator.Dedup.Bloom.{BloomFilter}
use vmestimator.Dedup.Bloom.Race.{
  Pc, probing, loaded, added, asking, answered, counted, update, IsCall, an_add, a_contains,
}
use vmestimator.Dedup.Bloom.Race.Moves.{
  Moves, load, leave, seen, won, lost, hit, miss, found, rests, stays,
}

abbrev pub reports : Pc → ℕ
reports (added h true) = 1
reports (added h false) = 0
reports (probing h i b) = 0
reports (loaded h i b w) = 0
reports (asking h i) = 0
reports (answered h b) = 0

-- The threads below `n` whose call of `add` returned true.
unfoldable pub total : ℕ → (ℕ → Pc) → ℕ
total zero pc = 0
total (suc n) pc = total n pc + reports (pc n)

total-update_of_le :
    (n : ℕ) (pc : ℕ → Pc) (i : ℕ) (p : Pc) → n ≤ i → total n (update pc i p) ≡ total n pc
unfolding total update
total-update_of_le zero pc i p le = refl
total-update_of_le (suc n) pc i p le = ground (arith, total-update_of_le n pc i p)

pub total-update :
    (n : ℕ) (pc : ℕ → Pc) (i : ℕ) (p : Pc)
    → i < n
    → total n (update pc i p) + reports (pc i) ≡ total n pc + reports p
unfolding total update
total-update zero pc i p lt = absurd (omega arith)
total-update (suc n) pc i p lt = elim (Bool-cases (i == n)) [
  | inl same ↦ rw ((nat_beq_iff i n).0 same) (ground (arith, total-update_of_le n pc n p))
  | inr other ↦ ground (arith, total-update n pc i p)
]

IsCall-reports : {p : Pc} → IsCall p → reports p ≡ 0
IsCall-reports (an_add h) = refl
IsCall-reports (a_contains h) = refl

pub total-IsCall : (n : ℕ) (pc : ℕ → Pc) → ((i : ℕ) → IsCall (pc i)) → total n pc ≡ 0
unfolding total
total-IsCall zero pc c = refl
total-IsCall (suc n) pc c = omega (arith, total-IsCall n pc c, IsCall-reports (c n))

counted-reports :
    (f : BloomFilter) (h : ℕ) (b : Bool) → (counted f b).size + 0 ≡ f.size + reports (added h b)
counted-reports f h true = omega arith
counted-reports f h false = refl

pub Moves-reports :
    {f f' : BloomFilter} {p p' : Pc} → Moves f p f' p' → f'.size + reports p ≡ f.size + reports p'
Moves-reports {f} (leave {h} {b = b} le) = counted-reports f h b
Moves-reports (load lt e) = refl
Moves-reports (seen e m) = refl
Moves-reports (won e m) = refl
Moves-reports (lost e) = refl
Moves-reports (hit lt e m) = refl
Moves-reports (miss lt e) = refl
Moves-reports (found le) = refl
Moves-reports rests = refl
Moves-reports stays = refl
