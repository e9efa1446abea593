-- ===== src/Forms.antt =====
-- app/admin/input-from-form.ts, with src/core/text.ts and src/core/roles.ts. A form is its entries, in order. The members that the source casts to
-- enumerations are texts; the schema of src/core/validate.ts refuses the ones that name none.
use announcement_tool.Common.{
  ℕ, zero, suc, ◌+◌, Bool, true, false, ◌&&◌, ◌||◌, List, [], ◌∷◌, ◌++◌, Option, none, some, Text,
  codes, text_eq, trim, split, to_lower_case, includes, is_blank, decimal, length, ◌==◌,
  if◌then◌else◌, Result, ok, err,
}
use announcement_tool.Types.{
  AnnouncementInput, AnnouncementType, Severity, Network, Audience, ActionRequired, Link, mainnet,
  testnet, operators, ecosystem,
}
use announcement_tool.Dates.{utc_input_to_iso}
use announcement_tool.Slug.{SlugError, normalize_slug, slug_error}

abbrev pub Form : Type 0
Form = List (Text × Text)

-- formData.get(name)
unfoldable pub get : Form → Text → Option Text
get [] name = none
get ((key, value) ∷ form) name = if text_eq key name then some value else get form name

-- formData.getAll(name)
unfoldable pub get_all : Form → Text → List Text
get_all [] name = []
get_all ((key, value) ∷ form) name =
    let rest = get_all form name in if text_eq key name then value ∷ rest else rest

-- String(value ?? '')
abbrev pub text_of : Option Text → Text
text_of none = []
text_of (some t) = t

-- s.replace(/\r\n?/g, '\n'); `returned` tells that the unit before is a carriage return.
unfoldable pub unify_newlines : Bool → Text → Text
unify_newlines returned [] = []
unify_newlines returned (c ∷ s) = elim (c == 13) [
  | true ↦ 10 ∷ unify_newlines true s
  | false ↦ elim (returned && (c == 10)) [
    | true ↦ unify_newlines false s
    | false ↦ c ∷ unify_newlines false s
  ]
]

unfoldable pub normalize_newlines : Text → Text
unfolding unify_newlines
normalize_newlines s = trim (unify_newlines false s)

unfoldable pub add_roles : List Text → List Text → List Text
add_roles [] out = out
add_roles (part ∷ parts) out =
    let r = to_lower_case (trim part) in
    add_roles parts (if is_blank r || includes out r then out else out ++ r ∷ [])

unfoldable pub parse_roles : Text → List Text
unfolding add_roles
parse_roles raw = add_roles (split b',' raw) []

abbrev pub indexed : Text → ℕ → Text
indexed name i = name ++ decimal i

-- for (let i = 0; ; i++): a round finds an entry of its own, so the entries are fuel enough.
unfoldable pub form_actions : ℕ → ℕ → Form → List ActionRequired
unfolding get parse_roles utc_input_to_iso
form_actions zero i form = []
form_actions (suc fuel) i form = elim (get form (indexed (codes "action.") i)) [
  | none ↦ []
  | some action ↦
      let rest = form_actions fuel (i + 1) form in
      let entry : ActionRequired = record {
        action = trim action;
        deadline = utc_input_to_iso (trim (text_of (get form (indexed (codes "deadline.") i))));
        applies_to = parse_roles (text_of (get form (indexed (codes "appliesTo.") i)));
      } in
      if is_blank (trim action) then rest else entry ∷ rest
]

unfoldable pub form_links : ℕ → ℕ → Form → List Link
unfolding get
form_links zero i form = []
form_links (suc fuel) i form = elim (get form (indexed (codes "linkLabel.") i)) [
  | none ↦ []
  | some label ↦
      let rest = form_links fuel (i + 1) form in
      let url = trim (text_of (get form (indexed (codes "linkUrl.") i))) in
      if is_blank (trim label) || is_blank url
      then rest
      else record { label = trim label; url = url } ∷ rest
]

-- What `inputFromForm` returns, before the schema.
pub record RawInput : Type 0 where
  pub type : Text
  pub networks : List Text
  pub audiences : List Text
  pub severity : Text
  pub title : Text
  pub body_md : Text
  pub actions_required : List ActionRequired
  pub links : List Link
  pub slug : Option Text
  pub mention_role_ids : List Text

unfoldable pub form_slug : Text → Result SlugError (Option Text)
form_slug submitted =
    if is_blank submitted then ok none else elim (slug_error (normalize_slug submitted)) [
      | some e ↦ err e
      | none ↦ ok (some (normalize_slug submitted))
    ]

unfoldable pub input_from_form : Form → Result SlugError RawInput
unfolding get get_all normalize_newlines form_actions form_links form_slug
input_from_form form =
    let str : Text → Text = λ name. trim (text_of (get form name)) in
    elim (form_slug (str (codes "slug"))) [
      | err e ↦ err e
      | ok slug ↦ ok (record {
        type = str (codes "type");
        networks = get_all form (codes "networks");
        audiences = get_all form (codes "audiences");
        severity = str (codes "severity");
        title = normalize_newlines (str (codes "title"));
        body_md = normalize_newlines (text_of (get form (codes "bodyMd")));
        actions_required = form_actions (length form) 0 form;
        links = form_links (length form) 0 form;
        slug = slug;
        mention_role_ids = get_all form (codes "mentionRoleIds");
      })
    ]

abbrev named : {A : Type 0} → List (Text × A) → Text → Option A
named [] t = none
named ((name, a) ∷ rest) t = if text_eq name t then some a else named rest t

abbrev all_named : {A : Type 0} → List (Text × A) → List Text → Option (List A)
all_named names [] = some []
all_named names (t ∷ ts) = elim (named names t) [
  | none ↦ none
  | some a ↦ elim (all_named names ts) [ none ↦ none | some more ↦ some (a ∷ more) ]
]

abbrev type_names : List (Text × AnnouncementType)
type_names =
    (codes "upgrade", AnnouncementType.upgrade)
    ∷ (codes "governance", AnnouncementType.governance)
    ∷ (codes "info", AnnouncementType.info)
    ∷ []

abbrev severity_names : List (Text × Severity)
severity_names =
    (codes "critical", Severity.critical)
    ∷ (codes "recommended", Severity.recommended)
    ∷ (codes "info", Severity.info)
    ∷ []

abbrev network_names : List (Text × Network)
network_names = (codes "mainnet", mainnet) ∷ (codes "testnet", testnet) ∷ []

abbrev audience_names : List (Text × Audience)
audience_names = (codes "operators", operators) ∷ (codes "ecosystem", ecosystem) ∷ []

-- The input with its enumerations, if the schema's `z.enum` accepts each.
unfoldable pub typed : RawInput → Option AnnouncementInput
typed raw = elim (named type_names raw.type) [
  | none ↦ none
  | some type ↦ elim (all_named network_names raw.networks) [
    | none ↦ none
    | some networks ↦ elim (all_named audience_names raw.audiences) [
      | none ↦ none
      | some audiences ↦ elim (named severity_names raw.severity) [
        | none ↦ none
        | some severity ↦ some (record {
          type = type;
          networks = networks;
          audiences = audiences;
          severity = severity;
          title = raw.title;
          body_md = raw.body_md;
          actions_required = raw.actions_required;
          links = raw.links;
          supersedes = none;
          slug = raw.slug;
          mention_role_ids = some raw.mention_role_ids;
        })
      ]
    ]
  ]
]
