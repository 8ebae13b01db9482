-- ===== src/CorporateEvents/Classify/Families.antt =====
-- The rules agree with the grouping of the event types into families, every type is reached, and
-- the levels of attention follow the families.
use zhiniu.Prelude.{ℕ, ◌≡◌, ◌≢◌, refl, ap, ◌∙◌, some, List, arith, codes, All, find-All}
use zhiniu.CorporateEvents.Models.{EventFamily, EventType, classified}
use zhiniu.CorporateEvents.Rules.{ClassificationRule, rules}
use zhiniu.CorporateEvents.Classify.{
  mentions, is_incentive_cancellation, matching_rules, families, classify_matches, classify_by,
  classify_title, attention_for, info, important,
}
use zhiniu.CorporateEvents.Classify.Outcome.{classify_title_lem, classify_title_event}

-- The grouping of the event types, independent of the rules.
abbrev pub family_of : EventType → EventFamily
family_of EventType.repurchase_plan = EventFamily.share_repurchase
family_of EventType.repurchase_progress = EventFamily.share_repurchase
family_of EventType.repurchase_completed = EventFamily.share_repurchase
family_of EventType.repurchase_adjusted = EventFamily.share_repurchase
family_of EventType.repurchase_cancelled = EventFamily.share_repurchase
family_of EventType.pledge_created = EventFamily.share_pledge
family_of EventType.pledge_released = EventFamily.share_pledge
family_of EventType.pledge_changed = EventFamily.share_pledge
family_of EventType.unlock_scheduled = EventFamily.share_unlock
family_of EventType.unlock_completed = EventFamily.share_unlock
family_of EventType.shareholding_change_plan = EventFamily.shareholder_change
family_of EventType.shareholding_change_progress = EventFamily.shareholder_change
family_of EventType.shareholding_change_completed = EventFamily.shareholder_change
family_of EventType.shareholding_change_cancelled = EventFamily.shareholder_change
family_of EventType.case_filed = EventFamily.litigation_arbitration
family_of EventType.case_progress = EventFamily.litigation_arbitration
family_of EventType.judgment_or_award = EventFamily.litigation_arbitration
family_of EventType.case_closed = EventFamily.litigation_arbitration
family_of _ = EventFamily.regulatory_action

abbrev IsGrouped : ClassificationRule → Type 0
IsGrouped r = r.family ≡ family_of r.event_type

rules-IsGrouped : All IsGrouped rules
unfolding rules
rules-IsGrouped = search

-- A classified title has an event type, and its family is the one that the type belongs to.
pub classified_family :
    (title : List ℕ)
    → (classify_title title).status ≡ classified
    → (e : EventType) × ((classify_title title).event_type ≡ some e)
      × ((classify_title title).event_family ≡ some (family_of e))
classified_family title h =
    let (r, decides) = (classify_title_lem title).0 h in
    let (family, type) = classify_title_event title r decides in
    let grouped =
      find-All IsGrouped (λ s. mentions title s.terms) rules r rules-IsGrouped decides.2 in
    (r.event_type, type, family ∙ ap some grouped)

-- Every event type is the type of some title: no rule hides another.
pub classify_title-reaches :
    (e : EventType) → (title : List ℕ) × ((classify_title title).event_type ≡ some e)
unfolding classify_title classify_by classify_matches matching_rules families mentions
    is_incentive_cancellation rules
classify_title-reaches EventType.repurchase_plan = (codes "回购方案", refl)
classify_title-reaches EventType.repurchase_progress = (codes "回购进展", refl)
classify_title-reaches EventType.repurchase_completed = (codes "回购完成", refl)
classify_title-reaches EventType.repurchase_adjusted = (codes "调整回购", refl)
classify_title-reaches EventType.repurchase_cancelled = (codes "终止回购", refl)
classify_title-reaches EventType.pledge_created = (codes "股份质押", refl)
classify_title-reaches EventType.pledge_released = (codes "解除质押", refl)
classify_title-reaches EventType.pledge_changed = (codes "补充质押", refl)
classify_title-reaches EventType.unlock_scheduled = (codes "解除限售", refl)
classify_title-reaches EventType.unlock_completed = (codes "解除限售完成", refl)
classify_title-reaches EventType.regulatory_inquiry = (codes "问询函", refl)
classify_title-reaches EventType.investigation_opened = (codes "立案", refl)
classify_title-reaches EventType.warning_letter = (codes "警示函", refl)
classify_title-reaches EventType.administrative_penalty = (codes "行政处罚", refl)
classify_title-reaches EventType.disciplinary_action = (codes "纪律处分", refl)
classify_title-reaches EventType.regulatory_measure = (codes "责令改正", refl)
classify_title-reaches EventType.shareholding_change_plan = (codes "减持计划", refl)
classify_title-reaches EventType.shareholding_change_progress = (codes "减持进展", refl)
classify_title-reaches EventType.shareholding_change_completed = (codes "减持计划实施完毕", refl)
classify_title-reaches EventType.shareholding_change_cancelled = (codes "终止减持", refl)
classify_title-reaches EventType.case_filed = (codes "提起诉讼", refl)
classify_title-reaches EventType.case_progress = (codes "诉讼进展", refl)
classify_title-reaches EventType.judgment_or_award = (codes "法院判决", refl)
classify_title-reaches EventType.case_closed = (codes "诉讼结案", refl)

-- Only regulatory actions are important.
pub attention_important :
    (e : EventType) → (attention_for e).0 ≡ important → family_of e ≡ EventFamily.regulatory_action
unfolding attention_for
attention_important e h = ground arith

-- No regulatory action is routine.
pub attention_regulatory :
    (e : EventType) → family_of e ≡ EventFamily.regulatory_action → (attention_for e).0 ≢ info
unfolding attention_for
attention_regulatory e h = ground arith
