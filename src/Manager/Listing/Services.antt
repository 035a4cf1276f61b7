-- ===== src/Manager/Listing/Services.antt =====
-- What formatServices makes of a list.
use text.Mathlib.TextLemmas.{nil-append, append-nil, append_assoc}
use clienthub.Prelude.{
  ℕ, ◌+◌, ◌≡◌, refl, sym, ap, ◌∙◌, String, text_append, List, [], ◌∷◌, map, ltb, true, arith,
}
use clienthub.Proto.Payload.{ServiceInfo}
use clienthub.Manager.{Library}
use clienthub.Manager.Listing.{format_services, service_loop, service_text}

-- Each of the texts behind a comma.
abbrev behind_commas : List String → String
behind_commas [] = ""
behind_commas (t ∷ ts) = text_append ", " (text_append t (behind_commas ts))

-- The texts, separated by commas.
abbrev pub separated : List String → String
separated [] = ""
separated (t ∷ ts) = text_append t (behind_commas ts)

service_loop-behind :
    (lib : Library) (i : ℕ) (s : String) (svcs : List ServiceInfo)
    → service_loop lib (i + 1) s svcs ≡ text_append s (behind_commas (map (service_text lib) svcs))
unfolding service_loop
service_loop-behind lib i s [] = sym (append-nil s)
service_loop-behind lib i s (svc ∷ svcs) =
    let t = service_text lib svc in
    let rest = behind_commas (map (service_text lib) svcs) in
    let later : ltb 0 (i + 1) ≡ true = ground arith in
    rw later (
      service_loop-behind lib (i + 1) (text_append (text_append s ", ") t) svcs
      ∙ (append_assoc (text_append s ", ") t rest ∙ append_assoc s ", " (text_append t rest)))

-- The loop gives the texts of the services in their order, separated by commas.
pub format_services-separated :
    (lib : Library) (services : List ServiceInfo)
    → format_services lib services ≡ separated (map (service_text lib) services)
unfolding format_services service_loop
format_services-separated lib [] = refl
format_services-separated lib (svc ∷ svcs) =
    service_loop-behind lib 0 (text_append "" (service_text lib svc)) svcs
    ∙ ap (λ t. text_append t (behind_commas (map (service_text lib) svcs)))
        (nil-append (service_text lib svc))
