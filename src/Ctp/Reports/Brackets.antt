-- ===== src/Ctp/Reports/Brackets.antt =====
-- The answers to a query of the positions stand between two notifications.
use mathlib.Core.Path.{subst}
use bftrader.Prelude.{
  ℕ, ◌≡◌, refl, ◌∙◌, sym, ap, Bool, true, false, Option, none, some, List, [], ◌∷◌, ◌++◌, Text,
  ◌==◌, if◌then◌else◌, arith, ◌⊎◌, inl, inr, Bool-cases,
}
use bftrader.Proto.{notification_beginqueryposition, notification_endqueryposition, Fpu}
use bftrader.Ctp.Reports.{
  Report, got_error, got_position, got_notification, RspInfo, TdSmSpi, report,
  InvestorPositionField, position_data, begin_position, end_position, on_rsp_qry_investor_position,
}

-- One answer of CTP to a query of the positions; `none` is a null pointer.
pub record Answer : Type 0 where
  pub position : Option InvestorPositionField
  pub info : Option RspInfo

-- Whether no answer follows.
abbrev pub is_end : List Answer → Bool
is_end [] = true
is_end (a ∷ more) = false

-- The reports one after another onto those that are there, the newest first.
abbrev pub onto : List Report → List Report → List Report
onto [] sent = sent
onto (r ∷ rs) sent = onto rs (r ∷ sent)

-- Reports behind the notification of the beginning, which stands before the first position, and
-- before that of the end; without a position there is neither.
abbrev pub bracketed : List Report → List Report
bracketed [] = []
bracketed (got_position p ∷ rs) =
    got_notification notification_beginqueryposition
    ∷ got_position p
    ∷ (rs ++ got_notification notification_endqueryposition ∷ [])
bracketed (r ∷ rs) = r ∷ bracketed rs

onto-append :
    (rs : List Report) (r : Report) (sent : List Report)
    → onto (rs ++ r ∷ []) sent ≡ r ∷ onto rs sent
onto-append [] r sent = refl
onto-append (x ∷ rs) r sent = onto-append rs r (x ∷ sent)

module _ (gbk2utf16 : Text → Text) (fpu : Fpu) (req_id : ℕ) where
  -- The answers to one query: the last one is marked.
  abbrev pub answer_all : List Answer → TdSmSpi → TdSmSpi
  answer_all [] spi = spi
  answer_all (a ∷ more) spi =
      answer_all more
        (on_rsp_qry_investor_position gbk2utf16 fpu a.position a.info req_id (is_end more) spi)

  abbrev pub position_report : Option InvestorPositionField → List Report
  position_report none = []
  position_report (some p) = got_position (position_data fpu p) ∷ []

  -- An answer tells an error, or a position, or nothing.
  abbrev pub told : Option RspInfo → Option InvestorPositionField → List Report
  told none p = position_report p
  told (some info) p =
      if info.error_id == 0
      then position_report p
      else got_error info.error_id (gbk2utf16 info.error_msg) req_id ∷ []

  abbrev pub told_all : List Answer → List Report
  told_all [] = []
  told_all (a ∷ more) = told a.info a.position ++ told_all more

  abbrev begun : TdSmSpi → TdSmSpi
  begun spi =
      report (got_notification notification_beginqueryposition)
        (record spi { query_position_req_id = req_id })

  abbrev ended : TdSmSpi → TdSmSpi
  ended spi =
      report (got_notification notification_endqueryposition)
        (record spi { query_position_req_id = 0 })

  begin_position_idle :
      (spi : TdSmSpi)
      → (spi.query_position_req_id == 0) ≡ true
      → begin_position req_id spi ≡ begun spi
  unfolding begin_position
  begin_position_idle spi e = rw e refl

  begin_position_open :
      (spi : TdSmSpi) → (spi.query_position_req_id == 0) ≡ false → begin_position req_id spi ≡ spi
  unfolding begin_position
  begin_position_open spi e = rw e refl

  end_position_idle :
      (spi : TdSmSpi) → (spi.query_position_req_id == 0) ≡ true → end_position true spi ≡ spi
  unfolding end_position
  end_position_idle spi e = rw e refl

  end_position_open :
      (spi : TdSmSpi) → (spi.query_position_req_id == 0) ≡ false → end_position true spi ≡ ended spi
  unfolding end_position
  end_position_open spi e = rw e refl

  end_position_more : (spi : TdSmSpi) → end_position false spi ≡ spi
  unfolding end_position
  end_position_more spi = refl

  -- The answer tells `rs` and does `f` before the end of the query is looked at.
  abbrev Acts :
      Option RspInfo → Option InvestorPositionField → List Report → (TdSmSpi → TdSmSpi) → Type 0
  Acts info p rs f =
      ((is_last : Bool) (spi : TdSmSpi)
        → on_rsp_qry_investor_position gbk2utf16 fpu p info req_id is_last spi
          ≡ end_position is_last (f spi))
      × (told info p ≡ rs)

  abbrev Nothing : Option RspInfo → Option InvestorPositionField → Type 0
  Nothing info p = Acts info p [] (λ spi. spi)

  abbrev AnError : Option RspInfo → Option InvestorPositionField → Type 0
  AnError info p =
      (code : ℕ) × ((msg : Text) × Acts info p (got_error code msg req_id ∷ [])
          (report (got_error code msg req_id)))

  abbrev APosition : Option RspInfo → Option InvestorPositionField → Type 0
  APosition info p =
      (q : InvestorPositionField) × Acts info p (got_position (position_data fpu q) ∷ [])
        (λ spi. report (got_position (position_data fpu q)) (begin_position req_id spi))

  answer-cases :
      (info : Option RspInfo) (p : Option InvestorPositionField)
      → Nothing info p ⊎ AnError info p ⊎ APosition info p
  unfolding on_rsp_qry_investor_position
  answer-cases none none = inl (λ b spi. refl, refl)
  answer-cases none (some p) = inr (inr (p, (λ b spi. refl, refl)))
  answer-cases (some info) none = elim (Bool-cases (info.error_id == 0)) [
    | inl e ↦ inl (λ b spi. rw e refl, rw e refl)
    | inr e ↦ inr (inl (info.error_id, (gbk2utf16 info.error_msg, (λ b spi. rw e refl, rw e refl))))
  ]
  answer-cases (some info) (some p) = elim (Bool-cases (info.error_id == 0)) [
    | inl e ↦ inr (inr (p, (λ b spi. rw e refl, rw e refl)))
    | inr e ↦ inr (inl (info.error_id, (gbk2utf16 info.error_msg, (λ b spi. rw e refl, rw e refl))))
  ]

  -- The state after an answer and those that follow it.
  abbrev then_all : List Answer → TdSmSpi → TdSmSpi
  then_all more spi = answer_all more (end_position (is_end more) spi)

  then_all-cons :
      (a : Answer) (more : List Answer) (spi : TdSmSpi) (rs : List Report) (f : TdSmSpi → TdSmSpi)
      → Acts a.info a.position rs f
      → then_all (a ∷ more) spi ≡ then_all more (f spi)
  then_all-cons a more spi rs f acts =
      ap (answer_all (a ∷ more)) (end_position_more spi)
      ∙ ap (answer_all more) (acts.0 (is_end more) spi)

  abbrev Closed : List Report → TdSmSpi → Type 0
  Closed sent spi = (spi.sent ≡ sent) × (spi.query_position_req_id ≡ 0)

  Closed-cons :
      (a : Answer) (more : List Answer) (spi : TdSmSpi) (rs : List Report) (f : TdSmSpi → TdSmSpi)
      (h : List Report → List Report)
      → Acts a.info a.position rs f
      → Closed (h (rs ++ told_all more)) (then_all more (f spi))
      → Closed (h (told_all (a ∷ more))) (then_all (a ∷ more) spi)
  Closed-cons a more spi rs f h acts c =
      subst (λ x. Closed (h (x ++ told_all more)) (then_all (a ∷ more) spi)) (sym acts.1)
        (subst (Closed (h (rs ++ told_all more))) (sym (then_all-cons a more spi rs f acts)) c)

  abbrev with_end : List Report → List Report → List Report
  with_end sent rs = got_notification notification_endqueryposition ∷ onto rs sent

  -- Answers while the query is open.
  answers_open :
      (more : List Answer) (spi : TdSmSpi)
      → (spi.query_position_req_id == 0) ≡ false
      → Closed (with_end spi.sent (told_all more)) (then_all more spi)
  answers_open [] spi e =
      subst (Closed (with_end spi.sent [])) (sym (end_position_open spi e)) (refl, refl)
  answers_open (a ∷ more) spi e = elim (answer-cases a.info a.position) [
    | inl acts ↦ Closed-cons a more spi _ _ (with_end spi.sent) acts (answers_open more spi e)
    | inr (inl (code, (msg, acts))) ↦
        Closed-cons a more spi _ _ (with_end spi.sent) acts
          (answers_open more (report (got_error code msg req_id) spi) e)
    | inr (inr (p, acts)) ↦ Closed-cons a more spi _ _ (with_end spi.sent) acts (
        subst
          (λ x.
            Closed (with_end (got_position (position_data fpu p) ∷ spi.sent) (told_all more))
              (then_all more (report (got_position (position_data fpu p)) x)))
          (sym (begin_position_open spi e))
          (answers_open more (report (got_position (position_data fpu p)) spi) e))
  ]

  abbrev with_brackets : List Report → List Report → List Report
  with_brackets sent rs = onto (bracketed rs) sent

  -- Answers while no query is open.
  answers_idle :
      (more : List Answer) (spi : TdSmSpi)
      → spi.query_position_req_id ≡ 0
      → (req_id == 0) ≡ false
      → Closed (with_brackets spi.sent (told_all more)) (then_all more spi)
  answers_idle [] spi e r =
      subst (Closed spi.sent) (sym (end_position_idle spi (ground (arith, e)))) (refl, e)
  answers_idle (a ∷ more) spi e r = elim (answer-cases a.info a.position) [
    | inl acts ↦
        Closed-cons a more spi _ _ (with_brackets spi.sent) acts (answers_idle more spi e r)
    | inr (inl (code, (msg, acts))) ↦
        Closed-cons a more spi _ _ (with_brackets spi.sent) acts
          (answers_idle more (report (got_error code msg req_id) spi) e r)
    | inr (inr (p, acts)) ↦
        let pos = got_position (position_data fpu p) in
        let opened = report pos (begun spi) in
        Closed-cons a more spi _ _ (with_brackets spi.sent) acts (
          subst
            (λ x.
              Closed (with_brackets spi.sent (pos ∷ told_all more)) (then_all more (report pos x)))
            (sym (begin_position_idle spi (ground (arith, e))))
            (subst (λ (sent : List Report). Closed sent (then_all more opened))
              (sym (
                onto-append (told_all more) (got_notification notification_endqueryposition)
                  opened.sent))
              (answers_open more opened r)))
  ]

  -- When no query of positions is open and the identifier of a query is not 0, any answers to it,
  -- the last one marked, each with an error, a position or neither, leave the query closed, and are
  -- reported in their order: an error as an error, a position as a position, with one notification
  -- of the beginning before the first position and one of the end after the last answer; if no
  -- answer holds a position, there is neither notification.
  pub answer_all-sent :
      (answers : List Answer) (spi : TdSmSpi)
      → spi.query_position_req_id ≡ 0
      → (req_id == 0) ≡ false
      → ((answer_all answers spi).sent ≡ onto (bracketed (told_all answers)) spi.sent)
        × ((answer_all answers spi).query_position_req_id ≡ 0)
  answer_all-sent [] spi e r = (refl, e)
  answer_all-sent (a ∷ more) spi e r =
      subst (Closed (with_brackets spi.sent (told_all (a ∷ more))))
        (ap (answer_all (a ∷ more)) (end_position_more spi)) (answers_idle (a ∷ more) spi e r)
