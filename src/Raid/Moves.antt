-- ===== src/Raid/Moves.antt =====
-- What the operations of crates/trust-kernel/src/ram_raid.rs may do to the block table: an abstract
-- transition system, and the well-formedness that its steps keep.
use spaceshuttle.Prelude.{
  ℕ, zero, suc, ◌+◌, ◌*◌, ◌≤◌, ◌<◌, ◌≡◌, refl, true, false, List, [], ◌∷◌, some, ◌∙◌, ap, sym,
  arith, length, length-set, get_elem?, set, count_if, weight, count_if-set, count_if-le-length,
  weight-le-count_if, add64, sub64, u64_mod,
}
use spaceshuttle.Raid.Types.{RaidBlock, from_block_index}
use spaceshuttle.Raid.Controller.{RamRaid, resides}

-- `v` is block `b` with its place in the arena kept.
abbrev pub SamePlace : RaidBlock → RaidBlock → Type 0
SamePlace b v =
    (v.index ≡ b.index) × (v.stripe ≡ b.stripe) × (v.va_offset ≡ b.va_offset) × (v.size ≡ b.size)

-- `r'` is `r` with block `b` at `idx` overwritten by `v`, counters and clocks aside.
pub record Puts (r r' : RamRaid) (idx : ℕ) (b v : RaidBlock) : Type 0 where
  pub found : get_elem? r.blocks idx ≡ some b
  pub put : r'.blocks ≡ set r.blocks idx v
  pub place : SamePlace b v
  pub config_kept : r'.config ≡ r.config

pub data Move (r r' : RamRaid) : Type 0 where
  keep :
      r'.config ≡ r.config → r'.blocks ≡ r.blocks → r'.resident_count ≡ r.resident_count → Move r r'
  stay :
      (idx : ℕ) (b v : RaidBlock)
      → Puts r r' idx b v
      → resides v ≡ resides b
      → r'.resident_count ≡ r.resident_count
      → Move r r'
  enter :
      (idx : ℕ) (b v : RaidBlock)
      → Puts r r' idx b v
      → resides b ≡ false
      → resides v ≡ true
      → r'.resident_count ≡ add64 r.resident_count 1
      → Move r r'
  leave :
      (idx : ℕ) (b v : RaidBlock)
      → Puts r r' idx b v
      → resides b ≡ true
      → resides v ≡ false
      → r'.resident_count ≡ sub64 r.resident_count 1
      → Move r r'

pub data Moves (r : RamRaid) : RamRaid → Type 0 where
  done : Moves r r
  next : {s t : RamRaid} → Moves r s → Move s t → Moves r t

pub one : {r s : RamRaid} → Move r s → Moves r s
one m = next done m

pub Moves-trans : {r s t : RamRaid} → Moves r s → Moves s t → Moves r t
Moves-trans p done = p
Moves-trans p (next q m) = next (Moves-trans p q) m

-- Block `i` stands at `i * size` in stripe A or B by parity, and so on down the table.
abbrev pub LaidOut : ℕ → ℕ → List RaidBlock → Type 0
LaidOut size i [] = Unit {0}
LaidOut size i (b ∷ bs) =
    ((b.index ≡ i) × (b.stripe ≡ from_block_index i) × (b.va_offset ≡ i * size) × (b.size ≡ size))
    × LaidOut size (suc i) bs

pub record IsValid (r : RamRaid) : Type 0 where
  pub positive : 0 < r.config.block_size
  pub fits : length r.blocks < u64_mod
  pub counted : r.resident_count ≡ count_if resides r.blocks
  pub laid_out : LaidOut r.config.block_size 0 r.blocks

LaidOut-set :
    (size i : ℕ) (bs : List RaidBlock) (j : ℕ) (b v : RaidBlock)
    → get_elem? bs j ≡ some b
    → SamePlace b v
    → LaidOut size i bs
    → LaidOut size i (set bs j v)
LaidOut-set size i [] j b v e p l = tt
LaidOut-set size i (c ∷ bs) zero b v e p l = (ground arith, l.1)
LaidOut-set size i (c ∷ bs) (suc j) b v e p l = (l.0, LaidOut-set size (suc i) bs j b v e p l.1)

Puts-IsValid :
    (r r' : RamRaid) (idx : ℕ) (b v : RaidBlock)
    → Puts r r' idx b v
    → r'.resident_count ≡ count_if resides r'.blocks
    → IsValid r
    → IsValid r'
Puts-IsValid r r' idx b v p c h = record {
  positive = rw p.config_kept h.positive;
  fits = rw p.put (rw (length-set r.blocks idx v) h.fits);
  counted = c;
  laid_out =
      rw (p.config_kept, p.put)
        (LaidOut-set r.config.block_size 0 r.blocks idx b v p.found p.place h.laid_out);
}

keep-IsValid :
    (r r' : RamRaid)
    → r'.config ≡ r.config
    → r'.blocks ≡ r.blocks
    → r'.resident_count ≡ r.resident_count
    → IsValid r
    → IsValid r'
keep-IsValid r r' c b n h = record {
  positive = rw c h.positive;
  fits = rw b h.fits;
  counted = n ∙ h.counted ∙ sym (ap (count_if resides) b);
  laid_out = rw (c, b) h.laid_out;
}

-- How the count of resident blocks changes when one block is overwritten.
count-put :
    (r r' : RamRaid) (idx : ℕ) (b v : RaidBlock)
    → Puts r r' idx b v
    → count_if resides r'.blocks + weight resides b ≡ count_if resides r.blocks + weight resides v
count-put r r' idx b v p = rw p.put (count_if-set resides r.blocks idx b v p.found)

pub count-le : (r : RamRaid) → count_if resides r.blocks ≤ length r.blocks
count-le r = count_if-le-length resides r.blocks

-- A block that is not resident leaves room in the count.
pub count-lt :
    (r r' : RamRaid) (idx : ℕ) (b v : RaidBlock)
    → Puts r r' idx b v
    → resides b ≡ false
    → resides v ≡ true
    → count_if resides r.blocks < length r.blocks
count-lt r r' idx b v p e f =
    ground
      (arith, count-put r r' idx b v p, count-le r', ap length p.put, length-set r.blocks idx v)

pub count-pos :
    (r r' : RamRaid) (idx : ℕ) (b v : RaidBlock)
    → Puts r r' idx b v
    → resides b ≡ true
    → 0 < count_if resides r.blocks
count-pos r r' idx b v p e = ground (arith, weight-le-count_if resides r.blocks idx b p.found)

-- Every step keeps the table well-formed: the resident count is the number of resident blocks.
pub Move-IsValid : {r r' : RamRaid} → Move r r' → IsValid r → IsValid r'
Move-IsValid {r} {r'} (keep c b n) h = keep-IsValid r r' c b n h
Move-IsValid {r} {r'} (stay idx b v p e n) h =
    Puts-IsValid r r' idx b v p (ground (arith, count-put r r' idx b v p, h.counted)) h
Move-IsValid {r} {r'} (enter idx b v p e f n) h =
    Puts-IsValid r r' idx b v p
      (ground (arith, count-put r r' idx b v p, count-lt r r' idx b v p, h.counted, h.fits)) h
Move-IsValid {r} {r'} (leave idx b v p e f n) h =
    Puts-IsValid r r' idx b v p
      (ground (
        arith,
        count-put r r' idx b v p,
        count-pos r r' idx b v p e,
        count-le r,
        h.counted,
        h.fits,
      ))
      h

pub Moves-IsValid : {r s : RamRaid} → Moves r s → IsValid r → IsValid s
Moves-IsValid done h = h
Moves-IsValid (next p m) h = Move-IsValid m (Moves-IsValid p h)

Move-config : {r s : RamRaid} → Move r s → s.config ≡ r.config
Move-config (keep c b n) = c
Move-config (stay idx b v p e n) = p.config_kept
Move-config (enter idx b v p e f n) = p.config_kept
Move-config (leave idx b v p e f n) = p.config_kept

pub Moves-config : {r s : RamRaid} → Moves r s → s.config ≡ r.config
Moves-config done = refl
Moves-config (next p m) = Move-config m ∙ Moves-config p

Puts-length :
    {r r' : RamRaid} {idx : ℕ} {b v : RaidBlock}
    → Puts r r' idx b v
    → length r'.blocks ≡ length r.blocks
Puts-length {r} {idx = idx} {v = v} p = ap length p.put ∙ length-set r.blocks idx v

Move-length : {r s : RamRaid} → Move r s → length s.blocks ≡ length r.blocks
Move-length (keep c b n) = ap length b
Move-length (stay idx b v p e n) = Puts-length p
Move-length (enter idx b v p e f n) = Puts-length p
Move-length (leave idx b v p e f n) = Puts-length p

pub Moves-length : {r s : RamRaid} → Moves r s → length s.blocks ≡ length r.blocks
Moves-length done = refl
Moves-length (next p m) = Move-length m ∙ Moves-length p
