-- ===== src/Mapper/Steps.antt =====
-- The steps that the mapper of crates/trust-kernel/src/llm_mapper.rs is made of, and what they keep.
use spaceshuttle.Prelude.{
  ℕ, zero, suc, ◌≡◌, refl, sym, ap, ◌∙◌, List, [], ◌∷◌, true, some, some-injective, get_elem?, set,
}
use spaceshuttle.Raid.Moves.{Moves, done, Moves-trans}
use spaceshuttle.Mapper.Aperture.{mapped, evicted, ApertureBlock, LlmMemoryMapper, in_ram, accessed}

-- The aperture after a step: as it was, or with one block of an index that `Q` allows mapped, or with one
-- resident block evicted.
pub data Turns (Q : ℕ → Type 0) (bs : List ApertureBlock) : List ApertureBlock → Type 0 where
  turn_none : Turns Q bs bs
  turn_in :
      (i : ℕ) (b : ApertureBlock)
      → Q i
      → get_elem? bs i ≡ some b
      → Turns Q bs (set bs i (accessed b mapped))
  turn_out :
      (i : ℕ) (b : ApertureBlock)
      → get_elem? bs i ≡ some b
      → in_ram b ≡ true
      → Turns Q bs (set bs i (record b { status = evicted }))

pub record Step (Q : ℕ → Type 0) (m m' : LlmMemoryMapper) : Type 0 where
  pub turned : Turns Q m.aperture m'.aperture
  pub moved : Moves m.raid_controller m'.raid_controller
  pub manifest_kept : m'.manifest ≡ m.manifest
  pub window_kept : m'.prefetch_window ≡ m.prefetch_window

pub data Steps (Q : ℕ → Type 0) (m : LlmMemoryMapper) : LlmMemoryMapper → Type 0 where
  stop : Steps Q m m
  onward : {m' m'' : LlmMemoryMapper} → Steps Q m m' → Step Q m' m'' → Steps Q m m''

module _ {Q : ℕ → Type 0} where
  pub single : {m m' : LlmMemoryMapper} → Step Q m m' → Steps Q m m'
  single s = onward stop s

  pub Steps-trans : {m m' m'' : LlmMemoryMapper} → Steps Q m m' → Steps Q m' m'' → Steps Q m m''
  Steps-trans p stop = p
  Steps-trans p (onward q s) = onward (Steps-trans p q) s

  pub Steps-Moves :
      {m m' : LlmMemoryMapper} → Steps Q m m' → Moves m.raid_controller m'.raid_controller
  Steps-Moves stop = done
  Steps-Moves (onward p s) = Moves-trans (Steps-Moves p) s.moved

  pub Steps-manifest : {m m' : LlmMemoryMapper} → Steps Q m m' → m'.manifest ≡ m.manifest
  Steps-manifest stop = refl
  Steps-manifest (onward p s) = s.manifest_kept ∙ Steps-manifest p

-- Every block stands at its index, from `i` on.
abbrev pub IsPlaced : ℕ → List ApertureBlock → Type 0
IsPlaced i [] = Unit
IsPlaced i (b ∷ bs) = (b.index ≡ i) × IsPlaced (suc i) bs

set-IsPlaced :
    (k : ℕ) (bs : List ApertureBlock) (i : ℕ) (b b' : ApertureBlock)
    → IsPlaced k bs
    → get_elem? bs i ≡ some b
    → b'.index ≡ b.index
    → IsPlaced k (set bs i b')
set-IsPlaced k [] i b b' h found same = h
set-IsPlaced k (x ∷ bs) zero b b' (here, h) found same =
    (same ∙ ap (λ (y : ApertureBlock). y.index) (sym (some-injective _ _ found)) ∙ here, h)
set-IsPlaced k (x ∷ bs) (suc i) b b' (here, h) found same =
    (here, set-IsPlaced (suc k) bs i b b' h found same)

Turns-IsPlaced :
    {Q : ℕ → Type 0} {bs bs' : List ApertureBlock} → Turns Q bs bs' → IsPlaced 0 bs → IsPlaced 0 bs'
Turns-IsPlaced turn_none h = h
Turns-IsPlaced {bs} (turn_in i b q found) h = set-IsPlaced 0 bs i b _ h found refl
Turns-IsPlaced {bs} (turn_out i b found was) h = set-IsPlaced 0 bs i b _ h found refl

pub Steps-IsPlaced :
    {Q : ℕ → Type 0} {m m' : LlmMemoryMapper}
    → Steps Q m m'
    → IsPlaced 0 m.aperture
    → IsPlaced 0 m'.aperture
Steps-IsPlaced stop h = h
Steps-IsPlaced (onward p s) h = Turns-IsPlaced s.turned (Steps-IsPlaced p h)
