-- ===== src/Summaries/Tests.antt =====
-- The heuristic of intelligence/summariser.py on a commit, the hash of a content being the content.
use provenancerank.Prelude.{◌≤◌, ◌≡◌, refl, List, All}
use mathlib.Core.List.{map-id}
use provenancerank.Text.{Text, codes, strip, lstrip, is_space, lower, starts_with, contains}
use provenancerank.Text.Order.{All-member_text}
use provenancerank.Loader.{is_full}
use provenancerank.Skills.{aliases}
use provenancerank.Skills.Canonical.{HasOnly, IsCanonical}
use provenancerank.Summaries.{
  mentions_any, classify, one_to_five, complexity, is_line_break, first_line, spaced, summary_line,
  heuristic,
}
use provenancerank.Summaries.Bounds.{heuristic-bounds}

abbrev set_of : List Text → List Text
set_of xs = xs

set_of-HasOnly : HasOnly set_of
unfolding HasOnly
set_of-HasOnly xs = rw (map-id xs) at (All-member_text (λ s. s) xs)

abbrev fix : Text
fix = codes "Fix a deadlock at scale"

hard_fix : complexity fix ≡ 4
unfolding complexity mentions_any one_to_five lower contains starts_with
hard_fix = refl

category : classify fix ≡ codes "debugging"
unfolding classify mentions_any lower contains starts_with
category = refl

untitled : summary_line (codes "commit_diff") (codes "  ") ≡ codes "commit diff with no description"
unfolding summary_line first_line is_line_break spaced strip lstrip is_space is_full
untitled = refl

heuristic-bounds_example :
    let summary = heuristic set_of (λ s. s) (codes "commit_diff") fix in
    (1 ≤ summary.complexity)
    × (summary.complexity ≤ 5)
    × All (IsCanonical (aliases set_of)) summary.skills_demonstrated
heuristic-bounds_example = heuristic-bounds set_of (λ s. s) set_of-HasOnly (codes "commit_diff") fix
