-- ===== src/Datafeed/Scan.antt =====
-- datafeed/dbservice.cpp: the loops over an iterator that the queries for ticks and for bars share.
-- `accepts n` is the answer of ServerWriter::Write to the message with index n of a call, false once
-- the stream is closed; the result of a loop lists the messages that were accepted.
use bftrader.Prelude.{
  ℕ, suc, Bool, not, Option, some, List, [], ◌∷◌, ◌++◌, Text, QMap, text_eq, text_leb, slt32,
  if◌then◌else◌, ◌>>=◌,
}
use bftrader.Datafeed.Store.{Change, delete}

abbrev pub reversed : {A : Type 0} → List A → List A
reversed [] = []
reversed (x ∷ xs) = reversed xs ++ x ∷ []

module _ {M : Type 0} (parse : Text → Option M) (accepts : ℕ → Bool) where
  -- The loop of getTickFromTo and getBarFromTo.
  unfoldable pub scan_to : Text → Text → Text → ℕ → QMap Text → Option (List M)
  scan_to first last to n [] = some []
  scan_to first last to n ((k, v) ∷ es) =
      if text_eq k first
      then scan_to first last to n es
      else if text_eq k last
      then some []
      else if text_leb k to
      then (do
        m ← parse v
        rest ← if accepts n then scan_to first last to (suc n) es else some []
        some (if accepts n then m ∷ rest else []))
      else some []

  -- The loop of getTickFromCount and getBarFromCount.
  unfoldable pub scan_count : Text → Text → ℕ → ℕ → QMap Text → Option (List M)
  scan_count first last limit n [] = some []
  scan_count first last limit n ((k, v) ∷ es) =
      if not (slt32 n limit)
      then some []
      else if text_eq k first
      then scan_count first last limit n es
      else if text_eq k last
      then some []
      else (do
        m ← parse v
        rest ← if accepts n then scan_count first last limit (suc n) es else some []
        some (if accepts n then m ∷ rest else []))

module _ {M : Type 0} (parse : Text → Option M) where
  -- The loop of getTickCountTo and getBarCountTo, which goes back and collects.
  unfoldable pub scan_back : Text → Text → ℕ → ℕ → QMap Text → Option (List M)
  scan_back first last limit n [] = some []
  scan_back first last limit n ((k, v) ∷ es) =
      if not (slt32 n limit)
      then some []
      else if text_eq k last
      then scan_back first last limit n es
      else if text_eq k first
      then some []
      else (do m ← parse v; rest ← scan_back first last limit (suc n) es; some (m ∷ rest))

module _ {M : Type 0} (accepts : ℕ → Bool) where
  -- The second loop of getTickCountTo, over the collected ticks from the last one down.
  unfoldable pub write_until : ℕ → List M → List M
  write_until n [] = []
  write_until n (m ∷ ms) = if accepts n then m ∷ write_until (suc n) ms else []

  -- The second loop of getBarCountTo, which goes on when the stream is closed.
  unfoldable pub write_each : ℕ → List M → List M
  write_each n [] = []
  write_each n (m ∷ ms) = let rest = write_each (suc n) ms in if accepts n then m ∷ rest else rest

-- The loop of deleteTick and deleteBar.
unfoldable pub scan_deletes : Text → Text → Text → QMap Text → List Change
scan_deletes first last to [] = []
scan_deletes first last to ((k, v) ∷ es) =
    let rest = scan_deletes first last to es in
    if text_eq k first
    then rest
    else if text_eq k last
    then []
    else if text_leb k to
    then delete k ∷ rest
    else []
