-- ===== src/TeamMode/Inbox/Marks.antt =====
-- What a receipt does to one message.
use agent_teams_mcp.Base.{
  Text, ◌==◌, ==_iff, ==_refl, ◌≡◌, refl, ap, ◌∙◌, ◌≢◌, inl, inr, ℕ, Bool, true, false, ◌||◌, List,
  [], ◌∷◌, ◌++◌, arith, if◌then◌else◌, Bool-cases,
}
use agent_teams_mcp.TeamMode.Message.{MessageReceipt, Message}
use agent_teams_mcp.TeamMode.Inbox.{
  unread, read, acked, has_receipt, inbox_status, ensure_receipt, mark,
}

-- A message after its receipts, beside what it was before.
pub record IsMarked (recipient : Text) (ack listed : Bool) (m m' : Message) : Type 0 where
  pub kept : m' ≡ record m { read_by = m'.read_by; acked_by = m'.acked_by }
  pub others : (r : Text) → r == recipient ≡ false → inbox_status m' r ≡ inbox_status m r
  pub unlisted : listed ≡ false → m' ≡ m
  pub reads : listed ≡ true → inbox_status m' recipient ≢ unread
  pub acks : listed ≡ true → ack ≡ true → inbox_status m' recipient ≡ acked
  pub only_read : ack ≡ false → m'.acked_by ≡ m.acked_by
  pub still_read : inbox_status m recipient ≢ unread → inbox_status m' recipient ≢ unread
  pub still_acked : inbox_status m recipient ≡ acked → inbox_status m' recipient ≡ acked

has_receipt-snoc :
    (r : Text) (rs : List MessageReceipt) (x : MessageReceipt)
    → has_receipt r (rs ++ x ∷ []) ≡ (has_receipt r rs || x.actor == r)
unfolding has_receipt
has_receipt-snoc r [] x = ground arith
has_receipt-snoc r (y ∷ rs) x = ground (arith, has_receipt-snoc r rs x)

pub ensure_receipt-has :
    (rs : List MessageReceipt) (actor r : Text) (at : ℕ)
    → has_receipt r (ensure_receipt rs actor at).0 ≡ (has_receipt r rs || actor == r)
unfolding ensure_receipt
ensure_receipt-has rs actor r at =
    ground (arith, has_receipt-snoc r rs (record { actor = actor; at = at }), ==_iff actor r)

ensure_receipt-same :
    (rs : List MessageReceipt) (actor : Text) (at : ℕ)
    → (ensure_receipt rs actor at).1 ≡ false
    → (ensure_receipt rs actor at).0 ≡ rs
unfolding ensure_receipt
ensure_receipt-same rs actor at h = ground arith

module _ (recipient : Text) (now : Bool → ℕ) where
  pub mark-id : (ack : Bool) (m : Message) → (mark recipient ack now m).0.id ≡ m.id
  unfolding mark
  mark-id true m = refl
  mark-id false m = refl

  pub mark-same :
      (ack : Bool) (m : Message)
      → (mark recipient ack now m).1 ≡ false
      → (mark recipient ack now m).0 ≡ m
  unfolding mark
  mark-same true m h =
      let a : (ensure_receipt m.read_by recipient (now false)).1 ≡ false = ground arith in
      let b : (ensure_receipt m.acked_by recipient (now true)).1 ≡ false = ground arith in
      rw (
        ensure_receipt-same m.read_by recipient (now false) a,
        ensure_receipt-same m.acked_by recipient (now true) b,
      )
  mark-same false m h = rw (ensure_receipt-same m.read_by recipient (now false) h)

  mark-status :
      (ack : Bool) (m : Message) (r : Text)
      → inbox_status (mark recipient ack now m).0 r ≡ (
          if recipient == r
          then if ack then acked else if has_receipt r m.acked_by then acked else read
          else inbox_status m r)
  unfolding mark inbox_status
  mark-status true m r = ground (
    arith,
    ensure_receipt-has m.acked_by recipient r (now true),
    ensure_receipt-has m.read_by recipient r (now false),
  )
  mark-status false m r = ground (arith, ensure_receipt-has m.read_by recipient r (now false))

  mark-kept :
      (ack : Bool) (m : Message)
      → (mark recipient ack now m).0 ≡ record m {
        read_by = (mark recipient ack now m).0.read_by;
        acked_by = (mark recipient ack now m).0.acked_by;
      }
  unfolding mark
  mark-kept true m = refl
  mark-kept false m = refl

  mark-acked :
      (ack : Bool) (m : Message)
      → inbox_status m recipient ≡ acked
      → inbox_status (mark recipient ack now m).0 recipient ≡ acked
  unfolding inbox_status
  mark-acked ack m h = mark-status ack m recipient ∙ ground (arith, ==_refl recipient)

  mark-only_read :
      (ack : Bool) (m : Message) → ack ≡ false → (mark recipient ack now m).0.acked_by ≡ m.acked_by
  unfolding mark
  mark-only_read true m h = cc
  mark-only_read false m h = refl

  pub mark-IsMarked :
      (ack : Bool) (m : Message) → IsMarked recipient ack true m (mark recipient ack now m).0
  mark-IsMarked ack m = record {
    kept = mark-kept ack m;
    others = λ r h. ground (arith, mark-status ack m r, ==_iff recipient r, ==_iff r recipient);
    unlisted = λ h. cc;
    reads = λ h. ground (arith, mark-status ack m recipient, ==_refl recipient);
    acks = λ h k. ground (arith, mark-status ack m recipient, ==_refl recipient);
    only_read = λ k. mark-only_read ack m k;
    still_read = λ h. ground (arith, mark-status ack m recipient, ==_refl recipient);
    still_acked = λ h. mark-acked ack m h;
  }

pub same-IsMarked : (recipient : Text) (ack : Bool) (m : Message) → IsMarked recipient ack false m m
same-IsMarked recipient ack m = record {
  kept = refl;
  others = λ r h. refl;
  unlisted = λ h. refl;
  reads = λ h. cc;
  acks = λ h k. cc;
  only_read = λ k. refl;
  still_read = λ h. h;
  still_acked = λ h. h;
}

pub IsMarked-trans :
    (recipient : Text) (ack l1 l2 : Bool) (m1 m2 m3 : Message)
    → IsMarked recipient ack l1 m1 m2
    → IsMarked recipient ack l2 m2 m3
    → IsMarked recipient ack (l1 || l2) m1 m3
IsMarked-trans recipient ack l1 l2 m1 m2 m3 a b = record {
  kept =
      b.kept
      ∙ ap {A = Message} (λ m. record m { read_by = m3.read_by; acked_by = m3.acked_by }) a.kept;
  others = λ r h. b.others r h ∙ a.others r h;
  unlisted = λ h. b.unlisted (ground arith) ∙ a.unlisted (ground arith);
  reads = λ h. elim (Bool-cases l2) [
    | inl h2 ↦ b.reads h2
    | inr h2 ↦ b.still_read (a.reads (ground arith))
  ];
  acks = λ h k. elim (Bool-cases l2) [
    | inl h2 ↦ b.acks h2 k
    | inr h2 ↦ b.still_acked (a.acks (ground arith) k)
  ];
  only_read = λ k. b.only_read k ∙ a.only_read k;
  still_read = λ h. b.still_read (a.still_read h);
  still_acked = λ h. b.still_acked (a.still_acked h);
}
