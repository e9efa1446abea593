-- ===== src/Outbox/Ledger.antt =====
-- enqueueDeliveries: what the rows of `delivery_ledger` are after it.
use announcement_tool.Common.{
  Apart, Distinct, ℕ, ◌≡◌, refl, sym, ◌∙◌, inl, inr, Bool, true, false, List, [], ◌∷◌, arith, Text,
  text_eq_iff, text_eq_refl, In, Bool-cases, false-ne-true,
}
use announcement_tool.Types.{
  Announcement, ChannelName, DeliveryKind, DeliveryTarget, kind_eq_iff, channel_eq_iff,
}
use announcement_tool.Store.{LedgerRow}
use announcement_tool.Outbox.{has_key, key_taken, new_row}

abbrev pub same_key : LedgerRow → LedgerRow → Bool
same_key r s = has_key r.announcement_id r.revision r.kind r.channel r.target s

pub same_key_self : (r : LedgerRow) → same_key r r ≡ true
unfolding has_key
same_key_self r = ground (
  arith,
  text_eq_refl r.announcement_id,
  text_eq_refl r.target,
  kind_eq_iff r.kind r.kind,
  channel_eq_iff r.channel r.channel,
)

pub has_key-eq :
    (id : Text) (revision : ℕ) (kind : DeliveryKind) (channel : ChannelName) (target : Text)
    (r : LedgerRow)
    → has_key id revision kind channel target r ≡ true
    → (r.announcement_id ≡ id)
      × (r.revision ≡ revision)
      × (r.kind ≡ kind)
      × (r.channel ≡ channel)
      × (r.target ≡ target)
unfolding has_key
has_key-eq id revision kind channel target r h = ground (
  arith,
  text_eq_iff r.announcement_id id,
  text_eq_iff r.target target,
  kind_eq_iff r.kind kind,
  channel_eq_iff r.channel channel,
)

pub same_key_sym : (r s : LedgerRow) → same_key r s ≡ false → same_key s r ≡ false
same_key_sym r s h = elim (Bool-cases (same_key s r)) [
  | inl e ↦
      let (i, v, k, c, t) = has_key-eq _ _ _ _ _ r e in
      absurd (false-ne-true (sym h ∙ rw (i, v, k, c, t) (same_key_self s)))
  | inr e ↦ e
]

-- No row of the ledger has the key of `r`.
abbrev pub Free : LedgerRow → List LedgerRow → Type 0
Free = Apart same_key

-- The primary key of `delivery_ledger`.
abbrev pub UniqueLedger : List LedgerRow → Type 0
UniqueLedger = Distinct same_key

module _ (now : ℕ) (a : Announcement) (kind : DeliveryKind) where
  abbrev taken : DeliveryTarget → List LedgerRow → Bool
  taken t ledger = key_taken a.id a.revision kind t ledger

  pub key_taken-Free :
      (t : DeliveryTarget) (ledger : List LedgerRow)
      → taken t ledger ≡ false
      → Free (new_row now a kind t) ledger
  unfolding key_taken
  key_taken-Free t [] h = tt
  key_taken-Free t (r ∷ rs) h =
      elim (Bool-cases (has_key a.id a.revision kind t.channel t.target r)) [
        | inl e ↦ absurd (false-ne-true (sym (rw e at h)))
        | inr e ↦ (e, key_taken-Free t rs (rw e at h))
      ]

  pub In-key_taken :
      (t : DeliveryTarget) (ledger : List LedgerRow) (r : LedgerRow)
      → In r ledger
      → has_key a.id a.revision kind t.channel t.target r ≡ true
      → taken t ledger ≡ true
  unfolding key_taken
  In-key_taken t [] r m h = absurd m
  In-key_taken t (s ∷ rs) r m h =
      elim (Bool-cases (has_key a.id a.revision kind t.channel t.target s)) [
        | inl e ↦ rw e
        | inr e ↦ elim m [
          | inl i ↦ absurd (false-ne-true (sym e ∙ rw i at h))
          | inr n ↦ rw e (In-key_taken t rs r n h)
        ]
      ]

  pub key_taken-In :
      (t : DeliveryTarget) (ledger : List LedgerRow)
      → taken t ledger ≡ true
      → (r : LedgerRow) × In r ledger × (has_key a.id a.revision kind t.channel t.target r ≡ true)
  unfolding key_taken
  key_taken-In t [] h = cc
  key_taken-In t (s ∷ rs) h =
      elim (Bool-cases (has_key a.id a.revision kind t.channel t.target s)) [
        | inl e ↦ (s, inl refl, e)
        | inr e ↦ let (r, m, k) = key_taken-In t rs (rw e at h) in (r, inr m, k)
      ]
