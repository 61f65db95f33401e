-- ===== src/Ctp/Contracts/Subscribed.antt =====
-- After the contracts are reset, the answer to a query for instruments leaves a contract for each
-- instrument and a ring buffer for each subscribed one.
use mathlib.Core.List.{append_assoc, append-nil}
use bftrader.Prelude.{
  ℕ, suc, ◌*◌, ◌≡◌, refl, ap, ◌∙◌, Bool, true, false, ◌&&◌, Option, none, some, List, [], ◌∷◌, ◌++◌,
  if◌then◌else◌, Text, QMap, find, insert, contains, All, arith, Bool-cases, inl, inr, Returns,
  slt32,
}
use bftrader.Ctp.RingBuffer.{RingBuffer}
use bftrader.Ctp.Translate.{InstrumentField, DepthMarketDataField}
use bftrader.Ctp.Contracts.{
  Contracts, insert_contract, ring_buffer_len, add_ring_buffers, init_ring_buffer, InstrumentRsp,
  take_prefixes, is_my, add_instrument, got_instrument, on_rsp_qry_instrument, answer_instruments,
  reset_data, reset_td, reset_md, free_contracts, free_ring_buffer,
}
use bftrader.Ctp.Contracts.Reported.{
  elem, ids_of, ids, all_new, select, elem-append, select-append, contains-insert,
  add_ring_buffers-contains,
}

module _ (to_lower : Text → Text) (all_prefixes : List Text) where
  abbrev pub my : Text → Bool
  my = is_my to_lower all_prefixes

  -- What the answers so far, which reported `seen`, have left.
  record Seen (seen : List Text) (s : Contracts) : Type 0 where
    all : s.got_all ≡ seen
    mine : s.got_my ≡ select my seen
    known : (k : Text) → contains k s.contracts ≡ elem k seen
    no_rbs : s.rbs ≡ []
    prefixed : s.prefixes ≡ all_prefixes

  reset_data-Seen : (s : Contracts) → Seen [] (take_prefixes all_prefixes (reset_data s))
  unfolding reset_data reset_td reset_md free_contracts free_ring_buffer take_prefixes find
  reset_data-Seen s = record {
    all = refl;
    mine = refl;
    known = λ k. refl;
    no_rbs = refl;
    prefixed = refl;
  }

  take_prefixes-done :
      (s : Contracts) (seen : List Text) → Seen seen s → take_prefixes all_prefixes s ≡ s
  unfolding take_prefixes
  take_prefixes-done s seen v = ground (arith, v.prefixed)

  -- A new instrument is added to what was seen; a known one stops the program.
  add_instrument-Seen :
      (c : InstrumentField) (s : Contracts) (seen : List Text)
      → Seen seen s
      → elem c.instrument_id seen ≡ false
      → Returns (Seen (seen ++ c.instrument_id ∷ [])) (add_instrument to_lower c s)
  unfolding add_instrument insert_contract
  add_instrument-Seen c s seen v e =
      let unknown : find c.instrument_id s.contracts ≡ none =
        ground (arith, v.known c.instrument_id) in
      let s' = record s { contracts = insert c.instrument_id c s.contracts } in
      (
        record s' {
          got_all = s.got_all ++ c.instrument_id ∷ [];
          got_my =
              if is_my to_lower s.prefixes c.instrument_id
              then s.got_my ++ c.instrument_id ∷ []
              else s.got_my;
        },
        rw (unknown, insert_contract),
        record {
          all = ap (λ (xs : List Text). xs ++ c.instrument_id ∷ []) v.all;
          mine = ground (
            arith,
            v.mine,
            v.prefixed,
            select-append my seen (c.instrument_id ∷ []),
            append-nil (select my seen),
          );
          known = λ k. ground (
            arith,
            v.known k,
            contains-insert c.instrument_id k c s.contracts,
            elem-append k seen (c.instrument_id ∷ []),
          );
          no_rbs = v.no_rbs;
          prefixed = v.prefixed;
        },
      )

  add_instrument-known :
      (c : InstrumentField) (s : Contracts) (seen : List Text)
      → Seen seen s
      → elem c.instrument_id seen ≡ true
      → add_instrument to_lower c s ≡ none
  unfolding add_instrument insert_contract
  add_instrument-known c s seen v e = ground (arith, v.known c.instrument_id)

  -- The answers before the last one.
  abbrev pub Pending : List InstrumentRsp → Type 0
  Pending = All (λ rsp. rsp.is_last ≡ false)

  -- An answer reports a new instrument, a known one, or none.
  got_instrument-Seen :
      (b l : Bool) (o : Option InstrumentField) (s : Contracts) (seen : List Text)
      → let rsp : InstrumentRsp = record { is_error = b; instrument = o; is_last = l } in
        Seen seen s
        → all_new seen (ids_of rsp) ≡ true
        → Returns (Seen (seen ++ ids_of rsp)) (got_instrument to_lower rsp s)
  unfolding got_instrument
  got_instrument-Seen true l o s seen v h = (
    record s { errors = suc s.errors },
    refl,
    rw (append-nil seen) (record {
      all = v.all;
      mine = v.mine;
      known = v.known;
      no_rbs = v.no_rbs;
      prefixed = v.prefixed;
    }),
  )
  got_instrument-Seen false l none s seen v h = (s, refl, rw (append-nil seen) v)
  got_instrument-Seen false l (some c) s seen v h = add_instrument-Seen c s seen v (ground arith)

  got_instrument-known :
      (b l : Bool) (o : Option InstrumentField) (s : Contracts) (seen : List Text)
      → let rsp : InstrumentRsp = record { is_error = b; instrument = o; is_last = l } in
        Seen seen s → all_new seen (ids_of rsp) ≡ false → got_instrument to_lower rsp s ≡ none
  unfolding got_instrument
  got_instrument-known true l o s seen v h = cc
  got_instrument-known false l none s seen v h = cc
  got_instrument-known false l (some c) s seen v h = add_instrument-known c s seen v (ground arith)

  all_new-append :
      (before xs ys : List Text)
      → all_new before (xs ++ ys) ≡ (all_new before xs && all_new (before ++ xs) ys)
  all_new-append before [] ys = rw (append-nil before)
  all_new-append before (x ∷ xs) ys =
      ground (arith, all_new-append (before ++ x ∷ []) xs ys, append_assoc before (x ∷ []) xs)

  got_instrument-Either :
      (rsp : InstrumentRsp) (s : Contracts) (seen : List Text)
      → Seen seen s
      → (all_new seen (ids_of rsp) ≡ true
          → Returns (Seen (seen ++ ids_of rsp)) (got_instrument to_lower rsp s))
        × (all_new seen (ids_of rsp) ≡ false → got_instrument to_lower rsp s ≡ none)
  got_instrument-Either rsp s seen v = (
    got_instrument-Seen rsp.is_error rsp.is_last rsp.instrument s seen v,
    got_instrument-known rsp.is_error rsp.is_last rsp.instrument s seen v,
  )

  module _ (item_len : ℕ) where
    -- What a complete answer leaves.
    abbrev pub Complete : List Text → Contracts → Type 0
    Complete all s =
        (s.got_all ≡ all)
        × (s.got_my ≡ select my all)
        × ((k : Text) → contains k s.contracts ≡ elem k all)
        × ((k : Text) → contains k s.rbs ≡ elem k (select my all))

    abbrev Either : List Text → List Text → Option Contracts → Type 0
    Either seen new r =
        (all_new seen new ≡ true → Returns (Complete (seen ++ new)) r)
        × (all_new seen new ≡ false → r ≡ none)

    init_ring_buffer-lem :
        (xs : List Text) (s : Contracts) (rbs : QMap (RingBuffer DepthMarketDataField))
        → s.rbs ≡ []
        → add_ring_buffers item_len xs [] ≡ some rbs
        → init_ring_buffer item_len xs s ≡ some (record s { rbs = rbs })
    unfolding init_ring_buffer
    init_ring_buffer-lem xs s rbs e h = ground arith

    init_ring_buffer-Complete :
        (s : Contracts) (seen : List Text)
        → slt32 (4 * 1024 * 1024) (item_len * ring_buffer_len) ≡ false
        → Seen seen s
        → Returns (Complete seen) (init_ring_buffer item_len s.got_my s)
    unfolding find
    init_ring_buffer-Complete s seen h v =
        let (rbs, e, same) = add_ring_buffers-contains item_len s.got_my [] h in
        (
          record s { rbs = rbs },
          init_ring_buffer-lem s.got_my s rbs v.no_rbs e,
          (v.all, v.mine, v.known, λ k. same k ∙ ground (arith, v.mine)),
        )

    on_rsp_qry_instrument-lem :
        (rsp : InstrumentRsp) (s s' : Contracts) (b : Bool)
        → got_instrument to_lower rsp (take_prefixes all_prefixes s) ≡ some s'
        → rsp.is_last ≡ b
        → on_rsp_qry_instrument to_lower all_prefixes item_len rsp s
          ≡ (if b then init_ring_buffer item_len s'.got_my s' else some s')
    unfolding on_rsp_qry_instrument
    on_rsp_qry_instrument-lem rsp s s' b e l =
        rw e (ap (λ (b : Bool). if b then init_ring_buffer item_len s'.got_my s' else some s') l)

    answer-Either :
        (rsps : List InstrumentRsp) (last : InstrumentRsp) (s : Contracts) (seen : List Text)
        → slt32 (4 * 1024 * 1024) (item_len * ring_buffer_len) ≡ false
        → Pending rsps
        → last.is_last ≡ true
        → Seen seen (take_prefixes all_prefixes s)
        → Either seen
            (ids rsps ++ ids_of last)
            (answer_instruments to_lower all_prefixes item_len (rsps ++ last ∷ []) s)
    unfolding on_rsp_qry_instrument
    answer-Either [] last s seen h p l v =
        let (good, bad) = got_instrument-Either last (take_prefixes all_prefixes s) seen v in
        elim (Bool-cases (all_new seen (ids_of last))) [
          | inl new ↦
              let (s1, e, v1) = good new in
              let (s2, e2, c) = init_ring_buffer-Complete s1 _ h v1 in
              (λ _. (s2, rw (on_rsp_qry_instrument-lem last s s1 true e l) (rw e2), c), λ f. cc)
          | inr old ↦ (λ f. cc, λ _. rw (bad old))
        ]
    answer-Either (rsp ∷ rsps) last s seen h p l v =
        let (good, bad) = got_instrument-Either rsp (take_prefixes all_prefixes s) seen v in
        let more = ids rsps ++ ids_of last in
        let split = all_new-append seen (ids_of rsp) more in
        rw (append_assoc (ids_of rsp) (ids rsps) (ids_of last))
          (elim (Bool-cases (all_new seen (ids_of rsp))) [
            | inl new ↦
                let (s1, e, v1) = good new in
                let (fine, stops) =
                  answer-Either rsps last s1 (seen ++ ids_of rsp) h p.1 l
                    (rw (take_prefixes-done s1 _ v1) v1) in
                let step = on_rsp_qry_instrument-lem rsp s s1 false e p.0 in
                (
                  λ t. rw (step, ← append_assoc seen (ids_of rsp) more) (fine (ground arith)),
                  λ f. rw step (stops (ground arith)),
                )
            | inr old ↦ (λ t. ground arith, λ f. rw (bad old))
          ])

    -- The result of a query without a repeated instrument, and of one with it.
    abbrev pub Answered : Bool → List Text → Option Contracts → Type 0
    Answered true all r = Returns (Complete all) r
    Answered false all r = r ≡ none

    Either-Answered :
        (b : Bool) (new : List Text) (r : Option Contracts)
        → all_new [] new ≡ b
        → Either [] new r
        → Answered b new r
    Either-Answered true new r e o = o.0 e
    Either-Answered false new r e o = o.1 e

    -- When ring buffers of this size can be made, after a reset the answers to a query for
    -- instruments, of which just the last is marked so, leave the contracts and the list of exactly
    -- the instruments reported and the ring buffers and the list of exactly those with a subscribed
    -- prefix; when an instrument is reported twice they stop the program.
    pub answer_instruments-Answered :
        (rsps : List InstrumentRsp) (last : InstrumentRsp) (s : Contracts)
        → slt32 (4 * 1024 * 1024) (item_len * ring_buffer_len) ≡ false
        → Pending rsps
        → last.is_last ≡ true
        → Answered
            (all_new [] (ids rsps ++ ids_of last))
            (ids rsps ++ ids_of last)
            (answer_instruments to_lower all_prefixes item_len (rsps ++ last ∷ []) (reset_data s))
    answer_instruments-Answered rsps last s h p l =
        Either-Answered _ (ids rsps ++ ids_of last) _ refl
          (answer-Either rsps last (reset_data s) [] h p l (reset_data-Seen s))
