-- ===== src/Dedup/Bloom/Probes.antt =====
-- The two loops of the Bloom filter (app/vmestimator/deduplicator.go) against the set of bit
-- positions: where a hash probes, what `contains` asks of the set, and what `add` puts into it.
use vmestimator.Base.{
  ℕ, zero, suc, ◌+◌, ◌*◌, ◌/◌, ◌%◌, ◌^◌, ◌<◌, bit_or, ◌≡◌, refl, ◌∙◌, Bool, true, false, not, ◌&&◌,
  ◌||◌, ◌==◌, nat_eq, arith, Option, some, List, length, get_or, set, get_elem?-eq-get_or,
  length-set, if◌then◌else◌,
}
use vmestimator.Words.{u64, low_half, high_half, mask_of}
use vmestimator.Dedup.Bloom.{index, contains_from, add_from}
use vmestimator.Dedup.Bloom.Bits.{bit_set, bit_set-set, unset_test}

-- Where the `i`-th probe of `h` falls in a slice of `n` words.
pub position : ℕ → ℕ → ℕ → ℕ
position n h i = u64 (low_half h + u64 (i * high_half h)) % (n * 64)

-- A slice that a filter can have: not empty, and its bits can be counted in 64 bits.
abbrev pub Fits : ℕ → Type 0
Fits n = (0 < n) × (n * 64 < 2 ^ 64)

pub position-lt : (n h i : ℕ) → Fits n → position n h i < n * 64
unfolding position
position-lt n h i f = grind arith

pub position-div-lt : (n h i : ℕ) → Fits n → position n h i / 64 < n
position-div-lt n h i f = omega (arith, position-lt n h i f)

pub index-position :
    (bits : List ℕ) (h i : ℕ)
    → Fits (length bits)
    → index bits h i ≡ some (position (length bits) h i)
unfolding index position
index-position bits h i f = ground arith

-- All of the probes from the `i`-th on, `rounds` of them, are in the set.
unfoldable pub all_set : ℕ → List ℕ → ℕ → ℕ → Bool
all_set zero bits h i = true
all_set (suc rounds) bits h i =
    bit_set bits (position (length bits) h i) && all_set rounds bits h (i + 1)

-- `j` is one of the probes from the `i`-th on, `rounds` of them.
unfoldable pub probed : ℕ → ℕ → ℕ → ℕ → ℕ → Bool
probed zero n h i j = false
probed (suc rounds) n h i j = (j == position n h i) || probed rounds n h (i + 1) j

pub contains_from-all_set :
    (rounds : ℕ) (bits : List ℕ) (h i : ℕ)
    → Fits (length bits)
    → contains_from rounds bits h i ≡ some (all_set rounds bits h i)
unfolding contains_from all_set
contains_from-all_set zero bits h i f = refl
contains_from-all_set (suc rounds) bits h i f =
    rw
      (
        index-position bits h i f,
        get_elem?-eq-get_or bits (position (length bits) h i / 64) 0
            (position-div-lt (length bits) h i f),
        unset_test bits (position (length bits) h i),
      )
      (ground (arith, contains_from-all_set rounds bits h (i + 1)))

-- The loop of `add` ends without a panic, puts its probes into the set, keeps the length, and says
-- whether some probe was missing.
abbrev pub Adds : ℕ → List ℕ → ℕ → ℕ → Bool → Option (List ℕ × Bool) → Type 0
Adds rounds bits h i is_new r =
    (bits' : List ℕ) × (r ≡ some (bits', (is_new || not (all_set rounds bits h i))))
    × (length bits' ≡ length bits)
    × ((j : ℕ) → bit_set bits' j ≡ (probed rounds (length bits) h i j || bit_set bits j))

abbrev pub marked : List ℕ → ℕ → ℕ → List ℕ
marked bits h i =
    let k = position (length bits) h i in
    set bits (k / 64) (bit_or (get_or bits (k / 64) 0) (mask_of (k % 64)))

pub by_bit :
    {R : Type 0} (g : List ℕ → Bool → R) (b : Bool) (x y : List ℕ) (s : Bool)
    → g (if not b then x else y) (if not b then true else s) ≡ (if b then g y s else g x true)
by_bit g true x y s = refl
by_bit g false x y s = refl

module _ (bits : List ℕ) (h i : ℕ) (f : Fits (length bits)) where
  pub add_from-suc :
      (rounds : ℕ) (is_new : Bool)
      → add_from (suc rounds) bits h i is_new ≡ (
          if bit_set bits (position (length bits) h i)
          then add_from rounds bits h (i + 1) is_new
          else add_from rounds (marked bits h i) h (i + 1) true)
  unfolding add_from
  add_from-suc rounds is_new =
      rw
        (
          index-position bits h i f,
          get_elem?-eq-get_or bits (position (length bits) h i / 64) 0
              (position-div-lt (length bits) h i f),
          unset_test bits (position (length bits) h i),
        )
        (by_bit (λ l s. add_from rounds l h (i + 1) s) (bit_set bits (position (length bits) h i)) _
          _ is_new)

  Adds-old :
      (rounds : ℕ) (is_new : Bool) (r : Option (List ℕ × Bool))
      → bit_set bits (position (length bits) h i) ≡ true
      → Adds rounds bits h (i + 1) is_new r
      → Adds (suc rounds) bits h i is_new r
  unfolding all_set probed
  Adds-old rounds is_new r old (bits', e, len, mem) =
      (bits', ground arith, len, λ j. ground (arith, mem j))

  Adds-fresh :
      (rounds : ℕ) (is_new : Bool) (r : Option (List ℕ × Bool))
      → bit_set bits (position (length bits) h i) ≡ false
      → Adds rounds (marked bits h i) h (i + 1) true r
      → Adds (suc rounds) bits h i is_new r
  unfolding all_set probed
  Adds-fresh rounds is_new r fresh (bits', e, len, mem) = (
    bits',
    ground arith,
    len ∙ length-set bits _ _,
    λ j.
        mem j
        ∙ rw length-set
            (ground (arith, bit_set-set bits _ j (position-div-lt (length bits) h i f))),
  )

  Adds-if :
      (rounds : ℕ) (is_new : Bool) (x y : Option (List ℕ × Bool)) (b : Bool)
      → bit_set bits (position (length bits) h i) ≡ b
      → Adds rounds bits h (i + 1) is_new x
      → Adds rounds (marked bits h i) h (i + 1) true y
      → Adds (suc rounds) bits h i is_new (if b then x else y)
  Adds-if rounds is_new x y true e old fresh = Adds-old rounds is_new x e old
  Adds-if rounds is_new x y false e old fresh = Adds-fresh rounds is_new y e fresh

Adds-zero :
    (bits : List ℕ) (h i : ℕ) (is_new : Bool)
    → Adds zero bits h i is_new (add_from zero bits h i is_new)
unfolding add_from all_set probed
Adds-zero bits h i is_new = (bits, ground arith, refl, λ j. refl)

pub add_from-Adds :
    (rounds : ℕ) (bits : List ℕ) (h i : ℕ) (is_new : Bool)
    → Fits (length bits)
    → Adds rounds bits h i is_new (add_from rounds bits h i is_new)
add_from-Adds zero bits h i is_new f = Adds-zero bits h i is_new
add_from-Adds (suc rounds) bits h i is_new f = rw (add_from-suc bits h i f rounds is_new) (
    Adds-if bits h i f rounds is_new _ _ _ refl (add_from-Adds rounds bits h (i + 1) is_new f)
      (add_from-Adds rounds (marked bits h i) h (i + 1) true (rw (length-set bits) f)))
