-- ===== src/Tests/Slugs.antt =====
-- Runs of the slugs of src/core/slug.ts, and the theorems applied to them.
use announcement_tool.Common.{
  ◌≡◌, refl, true, codes, Text, some, some_inj, length, ◌≤◌, arith, to_lower_case, text_eq, split,
  year_month, civil_from_days, civil_from_march,
}
use announcement_tool.Types.{upgrade}
use announcement_tool.Slug.{
  make_slug, normalize_slug, type_text, title_words, without_type, add_words, dashed, dash_runs,
  drop_dashes, drop_end_dashes,
}
use announcement_tool.Announcements.Drafts.{create_draft}
use announcement_tool.Announcements.Naming.{Named, create_draft-Named}
use announcement_tool.Slug.Shape.{IsSlug, normalize_slug-IsSlug}
use announcement_tool.Tests.Scenario.{noon, start, alice, ann_text, upgrade_input}

made :
    make_slug noon upgrade (codes "Upgrade to v5.2.0 required by 2026-08-28")
    ≡ codes "2026-08-upgrade-to-v5-2-0-required"
unfolding make_slug year_month civil_from_days civil_from_march type_text title_words without_type
    add_words dashed dash_runs drop_dashes drop_end_dashes to_lower_case split text_eq
made = refl

normalized : normalize_slug (codes "  Hello, World!  ") ≡ codes "hello-world"
unfolding normalize_slug dashed dash_runs drop_dashes drop_end_dashes to_lower_case
normalized = refl

given : (s : Text) → upgrade_input.slug ≡ some s → length s ≤ 80
given s e = let same : codes "v5-2-0" ≡ s = some_inj e in rw (← same) (omega arith)

create_draft-Named_example :
    Named
      (λ _. true)
      noon
      ann_text
      upgrade_input
      alice
      start
      (create_draft (λ _. true) noon ann_text upgrade_input alice start)
create_draft-Named_example =
    create_draft-Named (λ _. true) noon ann_text upgrade_input alice start given

normalize_slug-IsSlug_example : IsSlug (normalize_slug (codes "  Hello, World!  "))
normalize_slug-IsSlug_example = normalize_slug-IsSlug (codes "  Hello, World!  ")
