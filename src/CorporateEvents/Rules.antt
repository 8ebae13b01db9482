-- ===== src/CorporateEvents/Rules.antt =====
-- The table `RULES` of corporate_events/engine.py, in its order, which decides between the rules
-- that match one title.
use zhiniu.Prelude.{ℕ, List, [], ◌∷◌, codes}
use zhiniu.CorporateEvents.Models.{EventFamily, EventType}

pub record ClassificationRule : Type 0 where
  pub rule_id : List ℕ
  pub family : EventFamily
  pub event_type : EventType
  pub terms : List (List ℕ)

abbrev pub shareholding_change_cancelled_rule : ClassificationRule
shareholding_change_cancelled_rule = record {
  rule_id = codes "shareholding-change-cancelled";
  family = EventFamily.shareholder_change;
  event_type = EventType.shareholding_change_cancelled;
  terms = codes "终止增持" ∷ codes "终止减持" ∷ codes "取消增持" ∷ codes "取消减持" ∷ [];
}

abbrev pub shareholding_change_completed_rule : ClassificationRule
shareholding_change_completed_rule = record {
  rule_id = codes "shareholding-change-completed";
  family = EventFamily.shareholder_change;
  event_type = EventType.shareholding_change_completed;
  terms =
      codes "增持完成"
      ∷ codes "减持完成"
      ∷ codes "增持结果"
      ∷ codes "减持结果"
      ∷ codes "增持股份结果"
      ∷ codes "减持股份结果"
      ∷ codes "增持计划实施完毕"
      ∷ codes "减持计划实施完毕"
      ∷ [];
}

abbrev pub shareholding_change_progress_rule : ClassificationRule
shareholding_change_progress_rule = record {
  rule_id = codes "shareholding-change-progress";
  family = EventFamily.shareholder_change;
  event_type = EventType.shareholding_change_progress;
  terms =
      codes "增持进展"
      ∷ codes "减持进展"
      ∷ codes "增持股份进展"
      ∷ codes "减持股份进展"
      ∷ codes "增持股份达到"
      ∷ codes "减持股份达到"
      ∷ [];
}

abbrev pub shareholding_change_plan_rule : ClassificationRule
shareholding_change_plan_rule = record {
  rule_id = codes "shareholding-change-plan";
  family = EventFamily.shareholder_change;
  event_type = EventType.shareholding_change_plan;
  terms = codes "增持计划" ∷ codes "减持计划" ∷ codes "增持股份计划" ∷ codes "减持股份计划" ∷ [];
}

abbrev pub case_closed_rule : ClassificationRule
case_closed_rule = record {
  rule_id = codes "case-closed";
  family = EventFamily.litigation_arbitration;
  event_type = EventType.case_closed;
  terms =
      codes "诉讼结案" ∷ codes "仲裁结案" ∷ codes "撤回诉讼" ∷ codes "撤回仲裁" ∷ codes "诉讼和解" ∷ codes "仲裁和解" ∷ [];
}

abbrev pub judgment_or_award_rule : ClassificationRule
judgment_or_award_rule = record {
  rule_id = codes "judgment-or-award";
  family = EventFamily.litigation_arbitration;
  event_type = EventType.judgment_or_award;
  terms = codes "诉讼判决" ∷ codes "法院判决" ∷ codes "判决书" ∷ codes "仲裁裁决" ∷ codes "裁决书" ∷ [];
}

abbrev pub case_progress_rule : ClassificationRule
case_progress_rule = record {
  rule_id = codes "case-progress";
  family = EventFamily.litigation_arbitration;
  event_type = EventType.case_progress;
  terms = codes "诉讼进展" ∷ codes "仲裁进展" ∷ codes "诉讼开庭" ∷ codes "仲裁开庭" ∷ [];
}

abbrev pub case_filed_rule : ClassificationRule
case_filed_rule = record {
  rule_id = codes "case-filed";
  family = EventFamily.litigation_arbitration;
  event_type = EventType.case_filed;
  terms =
      codes "新增诉讼" ∷ codes "提起诉讼" ∷ codes "诉讼受理" ∷ codes "新增仲裁" ∷ codes "提起仲裁" ∷ codes "仲裁受理" ∷ [];
}

abbrev pub regulatory_investigation_rule : ClassificationRule
regulatory_investigation_rule = record {
  rule_id = codes "regulatory-investigation";
  family = EventFamily.regulatory_action;
  event_type = EventType.investigation_opened;
  terms = codes "立案" ∷ codes "调查通知" ∷ [];
}

abbrev pub regulatory_penalty_rule : ClassificationRule
regulatory_penalty_rule = record {
  rule_id = codes "regulatory-penalty";
  family = EventFamily.regulatory_action;
  event_type = EventType.administrative_penalty;
  terms = codes "行政处罚" ∷ codes "处罚决定" ∷ [];
}

abbrev pub regulatory_warning_rule : ClassificationRule
regulatory_warning_rule = record {
  rule_id = codes "regulatory-warning";
  family = EventFamily.regulatory_action;
  event_type = EventType.warning_letter;
  terms = codes "警示函" ∷ codes "警告函" ∷ [];
}

abbrev pub regulatory_discipline_rule : ClassificationRule
regulatory_discipline_rule = record {
  rule_id = codes "regulatory-discipline";
  family = EventFamily.regulatory_action;
  event_type = EventType.disciplinary_action;
  terms = codes "纪律处分" ∷ codes "公开谴责" ∷ [];
}

abbrev pub regulatory_inquiry_rule : ClassificationRule
regulatory_inquiry_rule = record {
  rule_id = codes "regulatory-inquiry";
  family = EventFamily.regulatory_action;
  event_type = EventType.regulatory_inquiry;
  terms = codes "问询函" ∷ codes "关注函" ∷ codes "监管函" ∷ [];
}

abbrev pub regulatory_measure_rule : ClassificationRule
regulatory_measure_rule = record {
  rule_id = codes "regulatory-measure";
  family = EventFamily.regulatory_action;
  event_type = EventType.regulatory_measure;
  terms = codes "监管措施" ∷ codes "责令改正" ∷ [];
}

abbrev pub repurchase_cancelled_rule : ClassificationRule
repurchase_cancelled_rule = record {
  rule_id = codes "repurchase-cancelled";
  family = EventFamily.share_repurchase;
  event_type = EventType.repurchase_cancelled;
  terms = codes "终止回购" ∷ codes "取消回购" ∷ [];
}

abbrev pub repurchase_completed_rule : ClassificationRule
repurchase_completed_rule = record {
  rule_id = codes "repurchase-completed";
  family = EventFamily.share_repurchase;
  event_type = EventType.repurchase_completed;
  terms = codes "回购完成" ∷ codes "回购实施完成" ∷ [];
}

abbrev pub repurchase_adjusted_rule : ClassificationRule
repurchase_adjusted_rule = record {
  rule_id = codes "repurchase-adjusted";
  family = EventFamily.share_repurchase;
  event_type = EventType.repurchase_adjusted;
  terms = codes "调整回购" ∷ codes "变更回购" ∷ [];
}

abbrev pub repurchase_progress_rule : ClassificationRule
repurchase_progress_rule = record {
  rule_id = codes "repurchase-progress";
  family = EventFamily.share_repurchase;
  event_type = EventType.repurchase_progress;
  terms = codes "回购进展" ∷ codes "实施回购" ∷ [];
}

abbrev pub repurchase_plan_rule : ClassificationRule
repurchase_plan_rule = record {
  rule_id = codes "repurchase-plan";
  family = EventFamily.share_repurchase;
  event_type = EventType.repurchase_plan;
  terms = codes "回购方案" ∷ codes "回购股份方案" ∷ codes "回购股份预案" ∷ codes "拟回购" ∷ [];
}

abbrev pub pledge_release_rule : ClassificationRule
pledge_release_rule = record {
  rule_id = codes "pledge-release";
  family = EventFamily.share_pledge;
  event_type = EventType.pledge_released;
  terms = codes "解除质押" ∷ codes "质押解除" ∷ [];
}

abbrev pub pledge_change_rule : ClassificationRule
pledge_change_rule = record {
  rule_id = codes "pledge-change";
  family = EventFamily.share_pledge;
  event_type = EventType.pledge_changed;
  terms = codes "质押变更" ∷ codes "补充质押" ∷ codes "延期购回" ∷ [];
}

abbrev pub pledge_created_rule : ClassificationRule
pledge_created_rule = record {
  rule_id = codes "pledge-created";
  family = EventFamily.share_pledge;
  event_type = EventType.pledge_created;
  terms = codes "股份质押" ∷ codes "股权质押" ∷ [];
}

abbrev pub unlock_completed_rule : ClassificationRule
unlock_completed_rule = record {
  rule_id = codes "unlock-completed";
  family = EventFamily.share_unlock;
  event_type = EventType.unlock_completed;
  terms = codes "解除限售完成" ∷ codes "解禁完成" ∷ [];
}

abbrev pub unlock_scheduled_rule : ClassificationRule
unlock_scheduled_rule = record {
  rule_id = codes "unlock-scheduled";
  family = EventFamily.share_unlock;
  event_type = EventType.unlock_scheduled;
  terms = codes "解除限售" ∷ codes "限售股上市流通" ∷ codes "解禁" ∷ [];
}

-- RULES
unfoldable pub rules : List ClassificationRule
rules =
    shareholding_change_cancelled_rule ∷ shareholding_change_completed_rule
    ∷ shareholding_change_progress_rule ∷ shareholding_change_plan_rule ∷ case_closed_rule
    ∷ judgment_or_award_rule ∷ case_progress_rule ∷ case_filed_rule ∷ regulatory_investigation_rule
    ∷ regulatory_penalty_rule ∷ regulatory_warning_rule ∷ regulatory_discipline_rule
    ∷ regulatory_inquiry_rule ∷ regulatory_measure_rule ∷ repurchase_cancelled_rule
    ∷ repurchase_completed_rule ∷ repurchase_adjusted_rule ∷ repurchase_progress_rule
    ∷ repurchase_plan_rule ∷ pledge_release_rule ∷ pledge_change_rule ∷ pledge_created_rule
    ∷ unlock_completed_rule ∷ unlock_scheduled_rule ∷ []
