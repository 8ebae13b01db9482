-- ===== src/CorporateEvents/Extract/Threads.antt =====
-- Which documents share the thread of an event.
use zhiniu.Prelude.{
  ℕ, ◌≡◌, ◌≢◌, refl, sym, ap, ◌∙◌, inl, inr, true, false, ◌&&◌, Option, List, arith, codes, text_eq,
  false, Bool-cases,
}
use zhiniu.CorporateEvents.Models.{EventFamily, DisclosureDocument}
use zhiniu.CorporateEvents.Extract.{Payload, get, truth, by_document, holder_of, thread_identity}

-- Documents of one company about one case share a thread, whatever else they say and whenever the
-- event takes effect.
pub thread_identity_case :
    (a b : DisclosureDocument) (p q : Payload) (s t : Option ℕ)
    → a.symbol ≡ b.symbol
    → truth (get p (codes "case_reference")) ≡ true
    → get p (codes "case_reference") ≡ get q (codes "case_reference")
    → thread_identity a EventFamily.litigation_arbitration p s
      ≡ thread_identity b EventFamily.litigation_arbitration q t
unfolding thread_identity
thread_identity_case a b p q s t same given eq = rw (same, sym eq, given) refl

-- Documents of one company about one plan of one holder in one direction share a thread, whatever
-- else they say and whenever the event takes effect.
pub thread_identity_plan :
    (a b : DisclosureDocument) (p q : Payload) (s t : Option ℕ)
    → a.symbol ≡ b.symbol
    → truth (holder_of p) ≡ true
    → truth (get p (codes "plan_reference")) ≡ true
    → holder_of p ≡ holder_of q
    → get p (codes "plan_reference") ≡ get q (codes "plan_reference")
    → get p (codes "direction") ≡ get q (codes "direction")
    → thread_identity a EventFamily.shareholder_change p s
      ≡ thread_identity b EventFamily.shareholder_change q t
unfolding thread_identity
thread_identity_plan a b p q s t same holder plan h r d =
    rw (same, sym h, sym r, sym d, holder, plan) refl

document_of-injective :
    (x y d e : List ℕ) (f : EventFamily) → by_document x f d ≡ by_document y f e → d ≡ e
document_of-injective x y d e f h = ground arith

not_fallback :
    (basis : List ℕ)
    → text_eq basis (codes "source_document_fallback") ≡ false
    → basis ≢ codes "source_document_fallback"
not_fallback basis h e =
    absurd (cc (sym h ∙ ap (λ l. text_eq l (codes "source_document_fallback")) e))

-- The material of the fallback.
fallback :
    (a : DisclosureDocument) (f : EventFamily) (p : Payload) (s : Option ℕ)
    → (thread_identity a f p s).1 ≡ codes "source_document_fallback"
    → (thread_identity a f p s).0 ≡ by_document a.symbol f a.source_document_id
unfolding thread_identity
fallback a EventFamily.shareholder_change p s h =
    elim (Bool-cases (truth (holder_of p) && truth (get p (codes "plan_reference")))) [
      | inl named ↦
          let basis = rw (thread_identity, named) at h in absurd (not_fallback _ refl basis)
      | inr unnamed ↦ rw unnamed refl
    ]
fallback a EventFamily.litigation_arbitration p s h =
    elim (Bool-cases (truth (get p (codes "case_reference")))) [
      | inl named ↦
          let basis = rw (thread_identity, named) at h in absurd (not_fallback _ refl basis)
      | inr unnamed ↦ rw unnamed refl
    ]
fallback a EventFamily.share_repurchase p s h = absurd (not_fallback _ refl h)
fallback a EventFamily.share_pledge p s h = absurd (not_fallback _ refl h)
fallback a EventFamily.share_unlock p s h = absurd (not_fallback _ refl h)
fallback a EventFamily.regulatory_action p s h = absurd (not_fallback _ refl h)

-- Where the basis of two identities is the fallback, one thread means one source document.
pub thread_identity_apart :
    (a b : DisclosureDocument) (f : EventFamily) (p q : Payload) (s t : Option ℕ)
    → (thread_identity a f p s).1 ≡ codes "source_document_fallback"
    → (thread_identity b f q t).1 ≡ codes "source_document_fallback"
    → (thread_identity a f p s).0 ≡ (thread_identity b f q t).0
    → a.source_document_id ≡ b.source_document_id
thread_identity_apart a b f p q s t h k e =
    document_of-injective a.symbol b.symbol a.source_document_id b.source_document_id f
      (sym (fallback a f p s h) ∙ e ∙ fallback b f q t k)

-- In the four other families, two documents of one company with the same date, or with none, have
-- one thread and one basis, whatever document each is.
pub thread_identity_collides :
    (a b : DisclosureDocument) (family : EventFamily) (p q : Payload) (effective : Option ℕ)
    → family ≢ EventFamily.shareholder_change
    → family ≢ EventFamily.litigation_arbitration
    → a.symbol ≡ b.symbol
    → thread_identity a family p effective ≡ thread_identity b family q effective
unfolding thread_identity
thread_identity_collides a b EventFamily.share_repurchase p q effective h k same = rw same refl
thread_identity_collides a b EventFamily.share_pledge p q effective h k same = rw same refl
thread_identity_collides a b EventFamily.share_unlock p q effective h k same = rw same refl
thread_identity_collides a b EventFamily.regulatory_action p q effective h k same = rw same refl
thread_identity_collides a b EventFamily.shareholder_change p q effective h k same = absurd (h refl)
thread_identity_collides a b EventFamily.litigation_arbitration p q effective h k same =
    absurd (k refl)
