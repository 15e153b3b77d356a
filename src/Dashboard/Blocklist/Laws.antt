-- ===== src/Dashboard/Blocklist/Laws.antt =====
-- The search finds a rule by any part of its domain, and every text of the rows is inert.
use proxy_redirector.Prelude.{
  ◌≡◌, refl, ap, ◌∙◌, Bool, true, List, [], ◌∷◌, ◌++◌, filter, All, arith, Bool-cases, inl, inr,
}
use proxy_redirector.Text.{Text, to_lower}
use proxy_redirector.Text.Laws.{includes-append}
use proxy_redirector.Dashboard.Escape.Laws.{IsInert, escape_html-IsInert}
use proxy_redirector.Dashboard.Blocklist.{
  Rule, RuleRow, Blocklist, rule_row, rule_rows_of, matches_rule, filter_rules,
}

to_lower-append : (a b : Text) → to_lower (a ++ b) ≡ to_lower a ++ to_lower b
unfolding to_lower
to_lower-append [] b = refl
to_lower-append (x ∷ a) b = rw (to_lower-append a b) refl

matches_part : (a q b category : Text) → matches_rule q (a ++ (q ++ b), category) ≡ true
unfolding matches_rule
matches_part a q b category =
    rw
      (
        to_lower-append a (q ++ b),
        to_lower-append q b,
        includes-append (to_lower a) (to_lower q) (to_lower b),
      )
      refl

rule_rows-append :
    (f : Rule → Bool) (before after : List Rule) (r : Rule)
    → f r ≡ true
    → rule_rows_of (filter f (before ++ r ∷ after))
      ≡ rule_rows_of (filter f before) ++ rule_row r ∷ rule_rows_of (filter f after)
rule_rows-append f [] after r h = rw h refl
rule_rows-append f (x ∷ xs) after r h = ground (arith, rule_rows-append f xs after r h)

-- Searching for any part of the domain of a rule shows that rule, between the rules before and behind
-- it that are found too.
pub filter_rules-part :
    (a q c category : Text) (before after : List Rule) (b : Blocklist)
    → b.cached_rules ≡ before ++ (a ++ (q ++ c), category) ∷ after
    → (filter_rules q b).rule_rows
      ≡ rule_rows_of (filter (matches_rule q) before)
        ++ rule_row (a ++ (q ++ c), category) ∷ rule_rows_of (filter (matches_rule q) after)
unfolding filter_rules
filter_rules-part a q c category before after b h =
    ap (λ rs. rule_rows_of (filter (matches_rule q) rs)) h
    ∙ rule_rows-append (matches_rule q) before after _ (matches_part a q c category)

-- No text of the row can open a tag or end an attribute.
pub record IsInertRow (r : RuleRow) : Type 0 where
  pub domain : All IsInert r.domain
  pub category : All IsInert r.category
  pub argument : All IsInert r.argument

rule_row-IsInertRow : (r : Rule) → IsInertRow (rule_row r)
unfolding rule_row
rule_row-IsInertRow r = record {
  domain = escape_html-IsInert r.0;
  category = escape_html-IsInert r.1;
  argument = escape_html-IsInert r.0;
}

rule_rows-IsInertRow :
    (f : Rule → Bool) (rs : List Rule) → All IsInertRow (rule_rows_of (filter f rs))
rule_rows-IsInertRow f [] = tt
rule_rows-IsInertRow f (r ∷ rs) = elim (Bool-cases (f r)) [
  | inl e ↦ rw e (rule_row-IsInertRow r, rule_rows-IsInertRow f rs)
  | inr e ↦ rw e (rule_rows-IsInertRow f rs)
]

-- Whatever rules are held, no text of the rows that a search shows can open a tag or end an
-- attribute.
pub filter_rules-IsInertRow :
    (q : Text) (b : Blocklist) → All IsInertRow (filter_rules q b).rule_rows
unfolding filter_rules
filter_rules-IsInertRow q b = rule_rows-IsInertRow (matches_rule q) b.cached_rules
