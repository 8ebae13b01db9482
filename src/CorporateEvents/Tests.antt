-- ===== src/CorporateEvents/Tests.antt =====
-- Classifications of concrete titles, and the theorems applied to them.
mod Extracted
use zhiniu.Prelude.{◌≡◌, ◌≢◌, ◌↔◌, refl, some, List, ℕ, codes}
use zhiniu.CorporateEvents.Models.{
  EventFamily, EventType, classified, ambiguous, unsupported, unclassified,
}
use zhiniu.CorporateEvents.Rules.{ClassificationRule, rules, shareholding_change_completed_rule}
use zhiniu.CorporateEvents.Classify.{
  mentions, is_incentive_cancellation, matching_rules, families, classify_matches, classify_by,
  classify_title, attention_for, info, important,
}
use zhiniu.CorporateEvents.Classify.Outcome.{
  Decides, Matching-All, classify_title_lem, classify_title_event,
}
use zhiniu.CorporateEvents.Classify.Families.{
  family_of, classified_family, classify_title-reaches, attention_important, attention_regulatory,
}

-- "Announcement that the plan of a reduction has been carried out"
abbrev title : List ℕ
title = codes "关于股东减持计划实施完毕的公告"

title_status : (classify_title title).status ≡ classified
unfolding classify_title classify_by classify_matches matching_rules families mentions
    is_incentive_cancellation rules
title_status = refl

-- A title about two families, one that is excluded, and one that no rule mentions.
others :
    ((classify_title (codes "股权质押及回购进展")).status ≡ ambiguous)
    × ((classify_title (codes "关于回购注销限制性股票的公告")).status ≡ unsupported)
    × ((classify_title (codes "年度报告")).status ≡ unclassified)
unfolding classify_title classify_by classify_matches matching_rules families mentions
    is_incentive_cancellation rules
others = (refl, refl, refl)

classify_title_lem_example :
    ((classify_title title).status ≡ classified)
    ↔ ((r : ClassificationRule) × Decides rules title r)
classify_title_lem_example = classify_title_lem title

decides : Decides rules title shareholding_change_completed_rule
unfolding mentions is_incentive_cancellation rules matching_rules
decides = (
  refl,
  refl,
  refl,
  (Matching-All title (λ r. r.family ≡ EventFamily.shareholder_change) rules).0 (refl, (refl, tt)),
)

level : (attention_for EventType.disciplinary_action).0 ≡ important
unfolding attention_for
level = refl
