-- ===== src/SafeQueue/Invariant.antt =====
-- The invariant of a stream, over any order of its steps.
use mathlib.Core.Path.{subst}
use mathlib.Core.List.{append_assoc, append-nil}
use bftrader.Prelude.{
  ℕ, ◌+◌, ◌≡◌, refl, ap, sym, ◌∙◌, Bool, true, false, List, [], ◌∷◌, ◌++◌, length, length-append,
  arith, ◌⊎◌, inl, inr, ◌≢◌,
}
use bftrader.SafeQueue.{enqueue, shutdown, drain, dequeue, dequeue_items}
use bftrader.SafeQueue.Streams.{
  Phase, sleeping, exited, Stream, notify_one, push, close, after_dequeue, connect_push, CanRun,
  Step, pushes, closes, runs, stirs, Reachable, start, later,
}

module _ {A : Type 0} where
  drain-append : (deleted items : List A) → drain deleted items ≡ deleted ++ items
  unfolding drain
  drain-append deleted [] = sym (append-nil deleted)
  drain-append deleted (x ∷ xs) =
      drain-append (deleted ++ x ∷ []) xs ∙ append_assoc deleted (x ∷ []) xs

  pub record Inv (s : Stream A) : Type 0 where
    pub accounts : s.sent ≡ s.written ++ (s.queue.deleted ++ s.queue.items)
    pub kept : s.queue.is_shutdown ≡ false → s.queue.deleted ≡ []
    pub asleep : s.phase ≡ sleeping → (s.queue.items ≡ []) × (s.queue.is_shutdown ≡ false)
    pub over :
        s.phase ≡ exited
        → ((s.queue.is_shutdown ≡ true) × (s.disconnects ≡ 0)) ⊎ (s.disconnects ≡ 1)
    pub open_still : s.phase ≢ exited → s.disconnects ≡ 0
    pub parts : s.written ≡ s.delivered ++ s.lost
    pub intact : s.phase ≢ exited → s.lost ≡ []
    pub losses : length s.lost ≡ s.disconnects

  push-Inv : (t : A) (s : Stream A) → Inv s → Inv (push t s)
  unfolding push enqueue notify_one
  push-Inv t s i = record {
    accounts = rw (i.accounts) (simp append_assoc);
    kept = i.kept;
    asleep = ground arith;
    over = ground (arith, i.over);
    open_still = ground (arith, i.open_still);
    parts = i.parts;
    intact = ground (arith, i.intact);
    losses = i.losses;
  }

  close-Inv : (s : Stream A) → Inv s → Inv (close s)
  unfolding close shutdown notify_one
  close-Inv s i = record {
    accounts = i.accounts;
    kept = λ e. cc;
    asleep = ground arith;
    over = ground (arith, i.over);
    open_still = ground (arith, i.open_still);
    parts = i.parts;
    intact = ground (arith, i.intact);
    losses = i.losses;
  }

  abbrev pub stream :
      List A → Bool → List A → Phase → List A → List A → List A → List A → ℕ → Stream A
  stream xs b d p w v f l n = record {
    queue = record { items = xs; is_shutdown = b; deleted = d };
    phase = p;
    written = w;
    delivered = v;
    lost = f;
    sent = l;
    disconnects = n;
  }

  -- A stream whose thread is in its loop has lost nothing.
  running-lost : {s : Stream A} → CanRun s.phase → Inv s → s.lost ≡ []
  running-lost {s} c i = i.intact (λ e. absurd (subst CanRun e c))

  dequeue_items-Inv :
      (ok : Bool) (xs : List A) (b : Bool) (d : List A) (p : Phase) (w v f l : List A) (n : ℕ)
      → CanRun p
      → Inv (stream xs b d p w v f l n)
      → Inv (
          after_dequeue ok
            (dequeue_items xs (stream xs b d p w v f l n).queue)
            (stream xs b d p w v f l n))
  unfolding dequeue_items after_dequeue
  dequeue_items-Inv ok [] true d p w v f l n c i = record {
    accounts = i.accounts;
    kept = i.kept;
    asleep = λ e. cc;
    over = λ e. inl (refl, ground (arith, i.open_still));
    open_still = λ h. ground arith;
    parts = i.parts;
    intact = λ h. ground arith;
    losses = i.losses;
  }
  dequeue_items-Inv ok [] false d p w v f l n c i = record {
    accounts = i.accounts;
    kept = i.kept;
    asleep = λ e. (refl, refl);
    over = λ e. cc;
    open_still = λ h. ground (arith, i.open_still);
    parts = i.parts;
    intact = λ h. ground (arith, i.intact);
    losses = i.losses;
  }
  dequeue_items-Inv ok (x ∷ xs) true d p w v f l n c i = record {
    accounts =
        i.accounts
        ∙ ap (◌++◌ w) (sym (drain-append d (x ∷ xs)) ∙ sym (append-nil (drain d (x ∷ xs))));
    kept = λ e. cc;
    asleep = λ e. cc;
    over = λ e. inl (refl, ground (arith, i.open_still));
    open_still = λ h. ground arith;
    parts = i.parts;
    intact = λ h. ground arith;
    losses = i.losses;
  }
  dequeue_items-Inv true (x ∷ xs) false d p w v f l n c i = record {
    accounts = rw (i.kept refl) (i.accounts ∙ rw (i.kept refl) (simp append_assoc));
    kept = i.kept;
    asleep = λ e. cc;
    over = λ e. cc;
    open_still = λ h. ground (arith, i.open_still);
    parts = rw (running-lost c i) (
        ap (λ (ys : List A). ys ++ x ∷ []) (i.parts ∙ ap (◌++◌ v) (running-lost c i) ∙ append-nil v)
        ∙ sym (append-nil (v ++ x ∷ [])));
    intact = λ h. ground (arith, i.intact);
    losses = i.losses;
  }
  dequeue_items-Inv false (x ∷ xs) false d p w v f l n c i = record {
    accounts = rw (i.kept refl) (i.accounts ∙ rw (i.kept refl) (simp append_assoc));
    kept = i.kept;
    asleep = λ e. cc;
    over = λ e. inr (ground (arith, i.open_still));
    open_still = λ h. ground arith;
    parts = ap (λ (ys : List A). ys ++ x ∷ []) i.parts ∙ append_assoc v f (x ∷ []);
    intact = λ h. ground arith;
    losses = length-append f (x ∷ []) ∙ ap (λ k. k + 1) i.losses;
  }

  Step-Inv : {s t : Stream A} → Step s t → Inv s → Inv t
  unfolding connect_push dequeue
  Step-Inv {s} (pushes t) i = push-Inv t s i
  Step-Inv {s} closes i = close-Inv s i
  Step-Inv {s} (runs ok c) i =
      dequeue_items-Inv ok s.queue.items s.queue.is_shutdown s.queue.deleted s.phase s.written
        s.delivered s.lost s.sent s.disconnects c i
  Step-Inv {s} (stirs e) i = record {
    accounts = i.accounts;
    kept = i.kept;
    asleep = λ e'. cc;
    over = λ e'. cc;
    open_still = λ h. i.open_still (ground arith);
    parts = i.parts;
    intact = λ h. i.intact (ground arith);
    losses = i.losses;
  }

  pub Reachable-Inv : {s : Stream A} → Reachable s → Inv s
  Reachable-Inv start = record {
    accounts = refl;
    kept = λ e. refl;
    asleep = λ e. cc;
    over = λ e. cc;
    open_still = λ h. refl;
    parts = refl;
    intact = λ h. refl;
    losses = refl;
  }
  Reachable-Inv (later r x) = Step-Inv x (Reachable-Inv r)
