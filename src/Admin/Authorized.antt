-- ===== src/Admin/Authorized.antt =====
-- The admin actions behind the middleware: what any sequence of requests does to the database.
use announcement_tool.Common.{ℕ, ◌≡◌, true, List, [], ◌∷◌, Option, some, Text, In}
use announcement_tool.Store.{Db}
use announcement_tool.Identity.{Identity, is_publisher}
use announcement_tool.Signin.{Jose}
use announcement_tool.Signin.Middleware.{Request, middleware}
use announcement_tool.Signin.Forwarded.{proven}
use announcement_tool.Announcements.History.{Call}
use announcement_tool.Admin.{Site, Action, act}
use announcement_tool.Admin.Acting.{call_of}

-- A request for an action, the nonce that it is given, and the time in seconds.
pub record Visit : Type 0 where
  pub now : ℕ
  pub nonce : Text
  pub request : Request
  pub action : Action

module _ (jose : Jose) (env : Text → Option Text) (site : Site) where
  unfoldable pub visit : Db → Visit → Db
  visit db v = (act site (middleware jose v.now env v.nonce v.request).forwarded v.action db).1

  unfoldable pub serve : Db → List Visit → Db
  unfolding visit
  serve db [] = db
  serve db (v ∷ vs) = serve (visit db v) vs

  -- The call is that of a visit by the publisher whom its token or session proves.
  abbrev pub Made : List Visit → Call → Type 0
  Made vs c =
      (v : Visit) × (i : Identity) × In v vs
      × (proven jose v.now env site.dev_email v.request ≡ some i)
      × (is_publisher site.checks_apply site.publishers i.email ≡ true)
      × (call_of v.action i.email ≡ some c)

  abbrev Allowed : Visit → Text → Type 0
  Allowed v email =
      (i : Identity) × (proven jose v.now env site.dev_email v.request ≡ some i)
      × (is_publisher site.checks_apply site.publishers i.email ≡ true)
      × (email ≡ i.email)

  -- What a visit leaves: nothing else, or the step of a call that its publisher may make.
  abbrev Calls : Visit → Call → Type 0
  Calls v c =
      (i : Identity) × (proven jose v.now env site.dev_email v.request ≡ some i)
      × (is_publisher site.checks_apply site.publishers i.email ≡ true)
      × (call_of v.action i.email ≡ some c)
