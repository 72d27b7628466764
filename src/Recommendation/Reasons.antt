-- ===== src/Recommendation/Reasons.antt =====
-- internal/recommendation/engine.go: the reasons, with their wording in both languages.
use domains_checker_infomati.Base.{String, List, [], ◌∷◌, Bool, true, false}

pub record Reason : Type 0 where
  pub code : String
  pub th : String
  pub en : String
  pub evidence : String

abbrev pub data_incomplete : Reason
data_incomplete = record {
  code = "DATA_INCOMPLETE";
  th = "ข้อมูลการตรวจสอบยังไม่ครบ จึงต้องให้ผู้ดูแลทบทวน";
  en = "Monitoring evidence is incomplete, so a human review is required.";
  evidence = "domains.current_status";
}

abbrev pub expiration_unknown : Reason
expiration_unknown = record {
  code = "EXPIRATION_UNKNOWN";
  th = "ยังไม่ทราบวันหมดอายุของโดเมน";
  en = "The domain expiration date is unknown.";
  evidence = "domains.expiration_at";
}

abbrev pub isp_block_review : Reason
isp_block_review = record {
  code = "ISP_BLOCK_REVIEW";
  th = "พบสัญญาณการบล็อกจากเครือข่าย ต้องตรวจสอบผลกระทบทางธุรกิจ";
  en = "Network blocking evidence requires a business-impact review.";
  evidence = "domains.current_isp_status";
}

abbrev pub technical_risk_review : Reason
technical_risk_review = record {
  code = "TECHNICAL_RISK_REVIEW";
  th = "มี incident หรือปัญหา DNS/TLS/การเข้าถึงที่ยังต้องวิเคราะห์";
  en = "An incident or DNS, TLS, or availability problem still requires analysis.";
  evidence = "domains.current_status";
}

abbrev pub downtime_history : Reason
downtime_history = record {
  code = "DOWNTIME_HISTORY";
  th = "มีประวัติเปลี่ยนเป็นสถานะใช้งานไม่ได้ใน 90 วันที่ผ่านมา";
  en = "The domain changed to an unavailable state during the past 90 days.";
  evidence = "domain_status_history";
}

abbrev pub renewal_cost_unknown : Reason
renewal_cost_unknown = record {
  code = "RENEWAL_COST_UNKNOWN";
  th = "ยังไม่มีต้นทุนต่ออายุที่เชื่อถือได้ จึงไม่ควรตัดสินใจต่ออายุหรือยกเลิกอัตโนมัติ";
  en =
      "No reliable renewal cost is available, so renew or drop should not be decided automatically.";
  evidence = "domain_costs";
}

abbrev pub inactive_low_priority : Reason
inactive_low_priority = record {
  code = "INACTIVE_LOW_PRIORITY";
  th = "โดเมนไม่ได้ใช้งานและมีความสำคัญทางธุรกิจต่ำ";
  en = "The domain is inactive and has low business priority.";
  evidence = "domains.lifecycle_status";
}

abbrev pub permanent_redirect : Reason
permanent_redirect = record {
  code = "PERMANENT_REDIRECT";
  th = "โดเมนเปลี่ยนเส้นทางแบบถาวรอยู่แล้ว";
  en = "The domain already uses a permanent redirect.";
  evidence = "domains.current_redirect_status";
}

abbrev pub profit_indicators_high : Reason
profit_indicators_high = record {
  code = "PROFIT_INDICATORS_HIGH";
  th = "ตัวชี้วัดด้านชื่อโดเมนอยู่ในระดับสูง ควรประเมินโอกาสเชิงพาณิชย์โดยมนุษย์";
  en = "Domain-name indicators are high; a human should assess the commercial opportunity.";
  evidence = "recommendation.indicators";
}

abbrev pub business_importance : Reason
business_importance = record {
  code = "BUSINESS_IMPORTANCE";
  th = "โดเมนมีความสำคัญทางธุรกิจสูง";
  en = "The domain has high business importance.";
  evidence = "domains.business_priority";
}

abbrev pub expiring_soon_reason : Reason
expiring_soon_reason = record {
  code = "EXPIRING_SOON";
  th = "โดเมนจะหมดอายุภายใน 90 วัน";
  en = "The domain expires within 90 days.";
  evidence = "domains.expiration_at";
}

abbrev pub healthy_monitoring : Reason
healthy_monitoring = record {
  code = "HEALTHY_MONITORING";
  th = "ผลตรวจล่าสุดไม่พบความเสี่ยงสำคัญ";
  en = "The latest monitoring evidence shows no material technical risk.";
  evidence = "domains.current_status";
}

abbrev pub policy_review_required : Reason
policy_review_required = record {
  code = "POLICY_REVIEW_REQUIRED";
  th = "หลักฐานยังไม่เพียงพอสำหรับการต่ออายุหรือยกเลิกอย่างอัตโนมัติ";
  en = "Evidence is not strong enough for an automatic renew or drop decision.";
  evidence = "recommendation.policy";
}

abbrev pub short_domain : Reason
short_domain = record {
  code = "SHORT_DOMAIN";
  th = "ชื่อหลักของโดเมนสั้นและจดจำง่าย";
  en = "The primary domain label is short and easier to remember.";
  evidence = "domains.domain_ascii";
}

abbrev pub brandable_pattern : Reason
brandable_pattern = record {
  code = "BRANDABLE_PATTERN";
  th = "รูปแบบชื่อไม่มีขีดกลางหรือตัวเลข จึงมีความเป็นแบรนด์ได้ดีขึ้น";
  en = "The name has no hyphen or digits, which improves brandability indicators.";
  evidence = "domains.domain_ascii";
}

abbrev pub strong_tld : Reason
strong_tld = record {
  code = "STRONG_TLD";
  th = "ใช้ TLD .com ซึ่งเป็นสัญญาณเชิงพาณิชย์ที่แข็งแรง";
  en = "The .com TLD is a strong commercial indicator.";
  evidence = "domains.domain_ascii";
}

-- A reason that is given if the test holds.
abbrev pub when : Bool → Reason → List Reason
when true r = r ∷ []
when false r = []
