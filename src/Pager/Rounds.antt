-- ===== src/Pager/Rounds.antt =====
-- When the loop of `page_out_bulk` ends (crates/trust-kernel/src/upip_pager.rs).
use spaceshuttle.Prelude.{
  ℕ, zero, suc, ◌+◌, ◌≤◌, ◌<◌, ◌≡◌, refl, ap, ◌∙◌, List, [], ◌∷◌, Option, none, some, String, true,
  false, not, ◌&&◌, inl, inr, arith, Bool-cases, leb, ◌==◌, ==_iff, is_some, length, take, drop,
  length-drop,
}
use spaceshuttle.Pager.Types.{UpipPager, PageOutResult}
use spaceshuttle.Pager.Paging.{page_out, add_token}
use spaceshuttle.Pager.Bulk.{bulk_rounds, page_out_bulk, with_result, tagged}

module _ (intent from_aint : String) (bus_seq : ℕ) where
  -- Paging out changes no chunk size.
  pub chunk_size-page_out :
      (p : UpipPager) (chunk : List ℕ) (at : ℕ)
      → (page_out p chunk at intent from_aint bus_seq).0.chunk_size ≡ p.chunk_size
  unfolding page_out add_token
  chunk_size-page_out p chunk at = elim (Bool-cases (length chunk == 0)) [
    | inl empty ↦ rw empty refl
    | inr some_bytes ↦ elim (Bool-cases (leb 256 (length p.tokens))) [
      | inl full ↦ rw (some_bytes, full) refl
      | inr room ↦ rw (some_bytes, room) refl
    ]
  ]

  is_some-with_result :
      (result : PageOutResult) (rest : Option (UpipPager × List PageOutResult))
      → is_some (with_result result rest) ≡ is_some rest
  is_some-with_result result none = refl
  is_some-with_result result (some r) = refl

  bulk_rounds_end :
      (fuel : ℕ) (p : UpipPager) (rest : List ℕ) (at : ℕ)
      → 0 < p.chunk_size
      → length rest ≤ fuel
      → is_some (bulk_rounds intent from_aint bus_seq fuel p rest at) ≡ true
  unfolding bulk_rounds
  bulk_rounds_end fuel p [] at positive enough = refl
  bulk_rounds_end zero p (x ∷ xs) at positive enough = absurd (omega arith)
  bulk_rounds_end (suc fuel) p (x ∷ xs) at positive enough =
      let chunk = take p.chunk_size (x ∷ xs) in
      let same = chunk_size-page_out p chunk at in
      let shorter = length-drop p.chunk_size (x ∷ xs) in
      is_some-with_result _ _
      ∙ bulk_rounds_end fuel (page_out p chunk at intent from_aint bus_seq).0
          (drop p.chunk_size (x ∷ xs)) (at + length chunk) (omega (arith, same))
          (omega (arith, shorter))

  bulk_rounds_stuck :
      (fuel : ℕ) (p : UpipPager) (x : ℕ) (xs : List ℕ) (at : ℕ)
      → p.chunk_size ≡ 0
      → is_some (bulk_rounds intent from_aint bus_seq fuel p (x ∷ xs) at) ≡ false
  unfolding bulk_rounds
  bulk_rounds_stuck zero p x xs at none_left = refl
  bulk_rounds_stuck (suc fuel) p x xs at none_left =
      let chunk = take p.chunk_size (x ∷ xs) in
      let p' = (page_out p chunk at intent from_aint bus_seq).0 in
      is_some-with_result _ _
      ∙ ap
          (λ n.
            is_some
              (bulk_rounds intent from_aint bus_seq fuel p' (drop n (x ∷ xs)) (at + length chunk)))
          none_left
      ∙ bulk_rounds_stuck fuel p' x xs (at + length chunk)
          (chunk_size-page_out p chunk at ∙ none_left)

  is_some-tagged :
      (ended : Option (UpipPager × List PageOutResult)) → is_some (tagged ended) ≡ is_some ended
  is_some-tagged none = refl
  is_some-tagged (some r) = refl

  -- Given as many rounds as the data has bytes, or any number more, the bulk page-out ends exactly
  -- if the chunk size is not 0 or there is no data; with a chunk size of 0 no number of rounds
  -- from there on is enough.
  pub page_out_bulk_ends :
      (more : ℕ) (p : UpipPager) (chunk_data : List ℕ) (base_offset : ℕ)
      → is_some (
          page_out_bulk
            (length chunk_data + more)
            p
            chunk_data
            base_offset
            intent
            from_aint
            bus_seq)
        ≡ not ((p.chunk_size == 0) && not (length chunk_data == 0))
  unfolding page_out_bulk
  page_out_bulk_ends more p [] base_offset = ground arith
  page_out_bulk_ends more p (x ∷ xs) base_offset = elim (Bool-cases (p.chunk_size == 0)) [
    | inl zero_size ↦
        is_some-tagged
          (bulk_rounds intent from_aint bus_seq (length (x ∷ xs) + more) p (x ∷ xs) base_offset)
        ∙ bulk_rounds_stuck (length (x ∷ xs) + more) p x xs base_offset
            ((==_iff p.chunk_size 0).0 zero_size)
        ∙ ground arith
    | inr positive ↦
        is_some-tagged
          (bulk_rounds intent from_aint bus_seq (length (x ∷ xs) + more) p (x ∷ xs) base_offset)
        ∙ bulk_rounds_end (length (x ∷ xs) + more) p (x ∷ xs) base_offset (ground arith)
            (omega arith)
        ∙ ground arith
  ]
