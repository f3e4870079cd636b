-- ===== src/ScopeCatalog.antt =====
-- services/consentScopeCatalog.ts: what a scope means to the subject who is asked for it. A scope is
-- its name; both languages' texts are kept.
pub mod Challenges
mod Tests
use orbi_pay_gateway_v.Prelude.{
  Bool, true, false, ◌==◌, String, Option, none, some, List, [], ◌∷◌, find, map,
}

pub data Locale : Type 0 where
  en sw : Locale

pub data Category : Type 0 where
  identity profile payment escrow withdrawal account webhook business : Category

pub data Risk : Type 0 where
  low medium high : Risk

-- `Record<ConsentLocale, string>`
pub record Localized : Type 0 where
  pub in_en : String
  pub in_sw : String

abbrev pub localized : Localized → Locale → String
localized t en = t.in_en
localized t sw = t.in_sw

pub record Entry : Type 0 where
  pub scope : String
  pub category : Category
  pub risk_level : Risk
  pub requires_hosted_challenge : Bool
  pub title : Localized
  pub description : Localized

-- The source's entry, with the texts of a language together.
abbrev pub entry : String → Category → Risk → Bool → Localized → Localized → Entry
entry scope category risk_level requires_hosted_challenge title description = record {
  scope = scope;
  category = category;
  risk_level = risk_level;
  requires_hosted_challenge = requires_hosted_challenge;
  title = title;
  description = description;
}

pub entries : List Entry
entries =
    entry "identity:resolve" Category.identity Risk.low false
      (record { in_en = "Find your ORBI identity"; in_sw = "Kutafuta utambulisho wako wa ORBI" })
      (record {
        in_en =
            "Allows the service to confirm that your phone, email, or ORBI ID belongs to an ORBI account.";
        in_sw =
            "Inaruhusu huduma kuthibitisha kuwa simu, barua pepe, au ORBI ID yako ipo kwenye akaunti ya ORBI.";
      })
    ∷ entry "business_registration:create" Category.business Risk.high true
        (record { in_en = "Register business access"; in_sw = "Kusajili ufikiaji wa biashara" })
        (record {
          in_en =
              "Allows the service to submit merchant, SACCOS, organization, or platform business access requests for ORBI review.";
          in_sw =
              "Inaruhusu huduma kuwasilisha maombi ya ufikiaji wa biashara kama merchant, SACCOS, organization, au platform kwa ukaguzi wa ORBI.";
        })
    ∷ entry "user:provision" Category.identity Risk.high true
        (record {
          in_en = "Provision linked ORBI users";
          in_sw = "Kutengeneza watumiaji waliounganishwa na ORBI";
        })
        (record {
          in_en =
              "Allows the service to request creation or linking of ORBI-backed user identities under approved registration protocols.";
          in_sw =
              "Inaruhusu huduma kuomba kutengeneza au kuunganisha utambulisho wa mtumiaji wa ORBI chini ya taratibu zilizoidhinishwa.";
        })
    ∷ entry "payment_profile:create" Category.profile Risk.medium true
        (record { in_en = "Create a payment profile"; in_sw = "Kutengeneza wasifu wa malipo" })
        (record {
          in_en =
              "Allows the service to create an ORBI payment profile reference for future approved payments.";
          in_sw =
              "Inaruhusu huduma kutengeneza rejea ya wasifu wa malipo ya ORBI kwa matumizi yaliyoidhinishwa baadaye.";
        })
    ∷ entry "payment_profile:read" Category.profile Risk.low false
        (record {
          in_en = "Read payment profile status";
          in_sw = "Kusoma hali ya wasifu wa malipo";
        })
        (record {
          in_en =
              "Allows the service to read whether your linked ORBI payment profile is active, revoked, or expired.";
          in_sw =
              "Inaruhusu huduma kusoma kama wasifu wako wa malipo wa ORBI upo hai, umefutwa, au umeisha muda.";
        })
    ∷ entry "payments:create" Category.payment Risk.high true
        (record { in_en = "Start payments"; in_sw = "Kuanzisha malipo" })
        (record {
          in_en =
              "Allows the service to start ORBI payments that still require ORBI authorization and risk checks.";
          in_sw =
              "Inaruhusu huduma kuanzisha malipo ya ORBI ambayo bado yatahitaji uthibitisho na ukaguzi wa hatari wa ORBI.";
        })
    ∷ entry "escrow:create" Category.escrow Risk.high true
        (record { in_en = "Create PaySafe escrow"; in_sw = "Kutengeneza PaySafe escrow" })
        (record {
          in_en =
              "Allows the service to create protected PaySafe escrow payments under ORBI lifecycle rules.";
          in_sw =
              "Inaruhusu huduma kutengeneza malipo ya PaySafe yanayolindwa chini ya sheria za mzunguko wa ORBI.";
        })
    ∷ entry "escrow:read" Category.escrow Risk.medium false
        (record { in_en = "Read escrow status"; in_sw = "Kusoma hali ya escrow" })
        (record {
          in_en =
              "Allows the service to read PaySafe escrow status for reconciliation and customer support.";
          in_sw =
              "Inaruhusu huduma kusoma hali ya PaySafe escrow kwa ajili ya usuluhishi wa miamala na huduma kwa wateja.";
        })
    ∷ entry "escrow:release:request" Category.escrow Risk.high true
        (record { in_en = "Request escrow release"; in_sw = "Kuomba escrow iachiwe" })
        (record {
          in_en =
              "Allows the service to request release of protected escrow funds. ORBI still enforces both-side lifecycle rules.";
          in_sw =
              "Inaruhusu huduma kuomba fedha za escrow ziachiwe. ORBI bado itafuata hatua na sheria za pande zote.";
        })
    ∷ entry "escrow:refund:request" Category.escrow Risk.high true
        (record { in_en = "Request escrow refund"; in_sw = "Kuomba fedha za escrow zirudishwe" })
        (record {
          in_en =
              "Allows the service to request escrow refund. ORBI decides instant refund, safe window, or dispute state.";
          in_sw =
              "Inaruhusu huduma kuomba escrow irudishwe. ORBI ndiyo huamua refund ya haraka, muda wa usalama, au hali ya mgogoro.";
        })
    ∷ entry "escrow:dispute:create" Category.escrow Risk.high true
        (record { in_en = "Open escrow dispute"; in_sw = "Kufungua pingamizi la escrow" })
        (record {
          in_en =
              "Allows the service to open a PaySafe dispute that freezes release until resolution.";
          in_sw =
              "Inaruhusu huduma kufungua pingamizi la PaySafe ambalo huzuia fedha kuachiwa mpaka litakapotatuliwa.";
        })
    ∷ entry "withdrawal:request" Category.withdrawal Risk.high true
        (record { in_en = "Request withdrawal"; in_sw = "Kuomba kutoa fedha" })
        (record {
          in_en =
              "Allows the service to request a withdrawal through ORBI-approved rails and risk checks.";
          in_sw =
              "Inaruhusu huduma kuomba kutoa fedha kupitia njia na ukaguzi wa hatari ulioidhinishwa na ORBI.";
        })
    ∷ entry "balance:read" Category.account Risk.medium true
        (record { in_en = "Read balance projection"; in_sw = "Kusoma makadirio ya salio" })
        (record {
          in_en =
              "Allows the service to read approved balance projections. It does not give wallet authority.";
          in_sw =
              "Inaruhusu huduma kusoma makadirio ya salio yaliyoidhinishwa. Haitoi mamlaka ya wallet.";
        })
    ∷ entry "webhooks:receive" Category.webhook Risk.low false
        (record {
          in_en = "Receive ORBI status events";
          in_sw = "Kupokea taarifa za hali kutoka ORBI";
        })
        (record {
          in_en =
              "Allows the service to receive signed ORBI events for reconciliation and status updates.";
          in_sw =
              "Inaruhusu huduma kupokea matukio yaliyosainiwa na ORBI kwa usuluhishi na updates za hali.";
        })
    ∷ []

pub record Summary : Type 0 where
  pub scope : String
  pub title : String
  pub description : String
  pub risk_level : Risk
  pub requires_hosted_challenge : Bool

abbrev pub undescribed : Locale → String
undescribed en = "This scope does not have an official description yet."
undescribed sw = "Ruhusa hii bado haijawekewa maelezo rasmi."

abbrev pub unknown_summary : Locale → String → Summary
unknown_summary locale scope = record {
  scope = scope;
  title = scope;
  description = undescribed locale;
  risk_level = medium;
  requires_hosted_challenge = true;
}

abbrev pub summary_of : Locale → Entry → Summary
summary_of locale e = record {
  scope = e.scope;
  title = localized e.title locale;
  description = localized e.description locale;
  risk_level = e.risk_level;
  requires_hosted_challenge = e.requires_hosted_challenge;
}

pub summarize : Locale → String → Summary
unfolding entries
summarize locale scope = elim (find (λ e. e.scope == scope) entries) [
  | none ↦ unknown_summary locale scope
  | some e ↦ summary_of locale e
]

pub consent_scope_summary : List String → Locale → List Summary
unfolding summarize
consent_scope_summary scopes locale = map (summarize locale) scopes
