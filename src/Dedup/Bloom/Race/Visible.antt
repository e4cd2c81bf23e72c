-- ===== src/Dedup/Bloom/Race/Visible.antt =====
-- What one thread of a Bloom filter sees of another's call (app/vmestimator/deduplicator.go).
use mathlib.Core.Path.{subst}
use vmestimator.Base.{
  ℕ, ◌<◌, ◌≡◌, refl, sym, Bool, true, false, inl, inr, ◌∙◌, some, some_inj, ◌==◌, nat_eq,
  nat_beq_iff,
}
use vmestimator.Dedup.Bloom.{BloomFilter, contains}
use vmestimator.Dedup.Bloom.Bits.{bit_set}
use vmestimator.Dedup.Bloom.Laws.{IsReady, holds, contains-holds}
use vmestimator.Dedup.Bloom.Race.{
  Pc, probing, loaded, added, asking, answered, System, update, pick, Reach, start, later, IsCall,
}
use vmestimator.Dedup.Bloom.Race.Moves.{
  at, Moves, load, leave, seen, won, lost, hit, miss, found, rests, stays,
}
use vmestimator.Dedup.Bloom.Race.Before.{Grows-IsReady, Grows-holds, holds-bit_set, Moves-Grows}
use vmestimator.Dedup.Bloom.Race.Invariant.{Knows, flag}
use vmestimator.Dedup.Bloom.Race.Safety.{move-eq-Moves, Reach-Inv, by_index}

holds_bits : (f g : BloomFilter) (h : ℕ) → f.bits ≡ g.bits → holds f h ≡ holds g h
unfolding holds
holds_bits f g h e = rw e refl

-- When threads share a filter that is ready and did not contain a hash, and one of them has returned
-- from adding it, some thread has set a bit and says, or will say, that its hash is new: a hash
-- is not lost because each thread takes it for another's.
pub Reach-flag :
    {n : ℕ} {s t : System}
    → IsReady s.filter
    → ((i : ℕ) → IsCall (s.pc i))
    → Reach n s t
    → (i h : ℕ) (is_new : Bool) → t.pc i ≡ added h is_new
    → contains s.filter h ≡ some false
    → (j : ℕ) × (j < n) × (flag (t.pc j) ≡ true)
Reach-flag {n} {s} {t} r calls steps i h is_new e fresh =
    let v = Reach-Inv r calls steps in
    elim v.someone [
      | inl same ↦
          let held = subst (Knows t.filter) e (v.knows i) in
          let missing = some_inj (sym (contains-holds s.filter h r) ∙ fresh) in
          let clash : true ≡ false = sym held ∙ holds_bits t.filter s.filter h same ∙ missing in cc
      | inr one ↦ one
    ]

-- A thread that asks for `h` and can only come to the answer true.
abbrev IsRight : ℕ → Pc → Type 0
IsRight h (asking g i) = g ≡ h
IsRight h (answered g b) = (g ≡ h) × (b ≡ true)
IsRight h (probing g i b) = ⊥
IsRight h (loaded g i b w) = ⊥
IsRight h (added g b) = ⊥

Moves-IsRight :
    {f f' : BloomFilter} {p p' : Pc} (h : ℕ)
    → holds f h ≡ true
    → Moves f p f' p'
    → IsRight h p
    → IsRight h p'
Moves-IsRight h held (hit lt e n) y = y
Moves-IsRight {f} h held (miss {h = g} {i} lt e) y =
    let bit : bit_set f.bits (at f g i) ≡ true = rw y (holds-bit_set f h i held lt) in
    let clash : true ≡ false = sym bit ∙ e in cc
Moves-IsRight h held (found le) y = (y, refl)
Moves-IsRight h held stays y = y
Moves-IsRight h held rests y = y
Moves-IsRight h held (load lt e) y = y
Moves-IsRight h held (leave le) y = y
Moves-IsRight h held (seen e m) y = y
Moves-IsRight h held (won e m) y = y
Moves-IsRight h held (lost e) y = y

Reach-IsRight :
    {n : ℕ} {s t : System} (i h : ℕ)
    → IsReady s.filter
    → holds s.filter h ≡ true
    → IsRight h (s.pc i)
    → Reach n s t
    → IsReady t.filter × (holds t.filter h ≡ true) × IsRight h (t.pc i)
unfolding update
Reach-IsRight i h r held y start = (r, held, y)
Reach-IsRight i h r held y (later {t} before (pick j f p lt runs)) =
    let (ready, still, right) = Reach-IsRight i h r held y before in
    let m = move-eq-Moves ready runs in
    let grows = Moves-Grows ready m in
    (
      Grows-IsReady t.filter f grows ready,
      Grows-holds t.filter f h grows still,
      by_index (IsRight h) t.pc j p i (j == i) refl
          (λ e.
            Moves-IsRight h still m
              (subst (λ k. IsRight h (t.pc k)) (sym ((nat_beq_iff j i).0 e)) right))
          (λ e. right),
    )

-- When threads share a filter that is ready, and one of them has returned from adding a hash before
-- another begins to ask for it, the other can only get the answer that the filter contains it,
-- whatever steps all threads take in between.
pub Reach-answered :
    {n : ℕ} {s mid t : System}
    → IsReady s.filter
    → ((i : ℕ) → IsCall (s.pc i))
    → Reach n s mid
    → (i j h : ℕ) (is_new found_it : Bool) → mid.pc i ≡ added h is_new
    → mid.pc j ≡ asking h 0
    → Reach n mid t
    → t.pc j ≡ answered h found_it
    → found_it ≡ true
Reach-answered {mid} r calls before i j h is_new found_it done asks after answer =
    let v = Reach-Inv r calls before in
    let held : holds mid.filter h ≡ true = subst (Knows mid.filter) done (v.knows i) in
    let (ready, still, right) =
      Reach-IsRight j h v.ready held (subst (IsRight h) (sym asks) refl) after in
    let (same, yes_it) : IsRight h (answered h found_it) = subst (IsRight h) answer right in yes_it
