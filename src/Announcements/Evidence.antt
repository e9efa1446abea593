-- ===== src/Announcements/Evidence.antt =====
-- How the evidence of four-eyes in the audit log arises, and what it says of a row.
use announcement_tool.Common.{
  ◌≡◌, ◌≢◌, refl, sym, ap, ◌∙◌, ◌⊎◌, inl, inr, false, List, [], ◌∷◌, ◌++◌, Option, none, some, Text,
  text_eq_iff, to_lower_case, In-append_left, In-append_right, false-ne-true, some_inj,
}
use announcement_tool.Types.{draft, publish_requested, scheduled, published, discarded, critical}
use announcement_tool.Store.{Row, AuditEntry, AuditAction}
use announcement_tool.Announcements.Publish.{same_person}
use announcement_tool.Announcements.Invariant.{
  FourEyes, Asked, Approved, Logged, Grows, detail_revision,
}

pub same_person-two_people :
    (requested : Option Text) (who actor : Text)
    → requested ≡ some who
    → same_person requested actor ≡ false
    → to_lower_case who ≢ to_lower_case actor
unfolding same_person
same_person-two_people none who actor e h k = cc
same_person-two_people (some w) who actor e h k =
    false-ne-true (sym h ∙ (text_eq_iff _ _).1 (ap to_lower_case (some_inj e) ∙ k))

pub Grows-append : (log : List AuditEntry) (e : AuditEntry) → Grows log (log ++ e ∷ [])
Grows-append log e x m = In-append_left x log (e ∷ []) m

-- The entry just written.
pub Logged-new :
    (log : List AuditEntry) (r : Row) (e : AuditEntry)
    → e.target ≡ r.id
    → detail_revision e.detail ≡ some r.revision
    → Logged (log ++ e ∷ []) r e.actor e.action
Logged-new log r e i v = record {
  entry = e;
  in_log = In-append_right e log (e ∷ []) (inl refl);
  by_actor = refl;
  of_action = refl;
  about_id = i;
  about_revision = v;
}

-- The entries about a row are about every row with its key.
pub Logged-move :
    {log : List AuditEntry} {actor : Text} {action : AuditAction} (r s : Row)
    → r.id ≡ s.id
    → r.revision ≡ s.revision
    → Logged log r actor action
    → Logged log s actor action
Logged-move r s i v l = record {
  entry = l.entry;
  in_log = l.in_log;
  by_actor = l.by_actor;
  of_action = l.of_action;
  about_id = l.about_id ∙ i;
  about_revision = l.about_revision ∙ ap some v;
}

pub Asked-move :
    {log : List AuditEntry} (r s : Row)
    → r.id ≡ s.id
    → r.revision ≡ s.revision
    → r.publish_requested_by ≡ s.publish_requested_by
    → Asked log r
    → Asked log s
Asked-move r s i v b a = record {
  requester = a.requester;
  recorded = sym b ∙ a.recorded;
  logged = elim a.logged [
    | inl l ↦ inl (Logged-move r s i v l)
    | inr l ↦ inr (Logged-move r s i v l)
  ];
}

-- The evidence that each status asks for.
module _ {log : List AuditEntry} (r : Row) where
  pub FourEyes-draft : r.status ≡ draft → FourEyes log r
  FourEyes-draft e = record {
    when_requested = λ c s. cc;
    when_scheduled = λ c s. cc;
    when_published = λ c s. cc;
  }

  pub FourEyes-discarded : r.status ≡ discarded → FourEyes log r
  FourEyes-discarded e = record {
    when_requested = λ c s. cc;
    when_scheduled = λ c s. cc;
    when_published = λ c s. cc;
  }

  pub FourEyes-requested :
      r.status ≡ publish_requested → (r.severity ≡ critical → Asked log r) → FourEyes log r
  FourEyes-requested e h = record {
    when_requested = λ c s. h c;
    when_scheduled = λ c s. cc;
    when_published = λ c s. cc;
  }

  pub FourEyes-scheduled :
      r.status ≡ scheduled → (r.severity ≡ critical → Approved log r) → FourEyes log r
  FourEyes-scheduled e h = record {
    when_requested = λ c s. cc;
    when_scheduled = λ c s. h c;
    when_published = λ c s. cc;
  }

  pub FourEyes-published :
      r.status ≡ published → (r.severity ≡ critical → Approved log r) → FourEyes log r
  FourEyes-published e h = record {
    when_requested = λ c s. cc;
    when_scheduled = λ c s. cc;
    when_published = λ c s. h c;
  }

-- A request and a confirmation by another person are an approval.
pub Approved-Asked :
    {log : List AuditEntry} (r s : Row) (actor : Text)
    → r.id ≡ s.id
    → r.revision ≡ s.revision
    → r.publish_requested_by ≡ s.publish_requested_by
    → s.publish_confirmed_by ≡ some actor
    → same_person r.publish_requested_by actor ≡ false
    → Asked log r
    → Logged log s actor AuditAction.publish_confirmed
      ⊎ Logged log s actor AuditAction.schedule_confirmed
    → Approved log s
unfolding Asked-move
Approved-Asked r s actor i v b c other a l = record {
  asked = Asked-move r s i v b a;
  confirmer = actor;
  recorded = c;
  logged = l;
  two_people = same_person-two_people r.publish_requested_by a.requester actor a.recorded other;
}

-- An approval of a row is one of every row with its key, its requester and its confirmer.
pub Approved-move :
    {log : List AuditEntry} (r s : Row)
    → r.id ≡ s.id
    → r.revision ≡ s.revision
    → r.publish_requested_by ≡ s.publish_requested_by
    → ((who : Text) → r.publish_confirmed_by ≡ some who → s.publish_confirmed_by ≡ some who)
    → Approved log r
    → Approved log s
unfolding Asked-move
Approved-move r s i v b c a = record {
  asked = Asked-move r s i v b a.asked;
  confirmer = a.confirmer;
  recorded = c a.confirmer a.recorded;
  logged = elim a.logged [
    | inl l ↦ inl (Logged-move r s i v l)
    | inr l ↦ inr (Logged-move r s i v l)
  ];
  two_people = a.two_people;
}
