-- ===== src/Delivery.antt =====
-- src/adapters/: the calls of the services that messages are delivered to. A service is a function of
-- the call and of a world of its own; it answers, or the call fails with an error, given by its message.
pub mod Redacting
pub mod Notes
pub mod Publishing
pub mod Hiding
pub mod Secrecy
pub mod Discord
pub mod Posting
use announcement_tool.Common.{
  ◌≡◌, refl, ◌⊎◌, inl, inr, ℕ, zero, suc, ◌+◌, ◌-◌, ◌/◌, ◌==◌, Bool, true, false, ◌&&◌, List, [],
  ◌∷◌, ◌++◌, Option, none, some, Text, leb, is_blank, length, starts_with, if◌then◌else◌, reverse,
}

-- `Number(body.retry_after)`, in millionths of a second.
pub data Wait : Type 0 where
  not_finite : Wait
  negative : ℕ → Wait
  micros : ℕ → Wait

-- The members of an answer that the adapters read: `code` is an integer, as its text, and `type` is a
-- natural number.
pub record Fields : Type 0 where
  pub code : Option Text
  pub message : Option Text
  pub type : Option ℕ
  pub retry_after : Wait
  pub id : Option Text
  pub channel_id : Option Text

-- What `res.json()` gives: it rejects, or the value is null, or no object, or an object.
pub data Json : Type 0 where
  not_json null_json other_json : Json
  object : Fields → Json

pub record Response : Type 0 where
  pub status : ℕ
  pub body : Json

pub data Reply : Type 0 where
  fails : Text → Reply
  answers : Response → Reply

pub reply_cases :
    (r : Reply) → ((e : Text) × (r ≡ fails e)) ⊎ ((res : Response) × (r ≡ answers res))
reply_cases (fails e) = inl (e, refl)
reply_cases (answers res) = inr (res, refl)

-- res.ok
abbrev pub is_ok : Response → Bool
is_ok r = leb 200 r.status && leb r.status 299

-- s.split(token).join('***'), after `skip` units that belong to an occurrence.
unfoldable pub hide : Text → ℕ → Text → Text
hide token skip [] = []
hide token (suc skip) (c ∷ s) = hide token skip s
hide token zero (c ∷ s) = elim (starts_with token (c ∷ s)) [
  | true ↦ b'*' ∷ b'*' ∷ b'*' ∷ hide token (length token - 1) s
  | false ↦ c ∷ hide token 0 s
]

-- botToken ? raw.split(botToken).join('***') : raw
unfoldable pub redact : Text → Text → Text
unfolding hide
redact token raw = if is_blank token then raw else hide token 0 raw

drop_slashes : Text → Text
drop_slashes [] = []
drop_slashes (c ∷ s) = let rest = drop_slashes s in if c == b'/' then rest else c ∷ s

-- base.replace(/\/+$/, '')
unfoldable pub without_slashes : Text → Text
unfolding drop_slashes
without_slashes base = reverse (drop_slashes (reverse base))
