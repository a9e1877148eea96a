-- ===== src/Http/Origin/Examples.antt =====
-- A page's own origin and that of another site.
use m45_gamma_firmware.Base.{◌≡◌, refl, ◌↔◌, true, false}
use m45_gamma_firmware.Stratum.Text.{codes}
use m45_gamma_firmware.Http.Origin.{Headers, request_has_disallowed_browser_origin}
use m45_gamma_firmware.Http.Origin.Hosts.{is_literal}
use m45_gamma_firmware.Http.Origin.Allowed.{IsAllowed, request_iff}

abbrev own_page : Headers
own_page = record {
  sec_fetch_site = codes "same-origin";
  origin = codes "HTTP://M45.local:80";
  host = codes "m45.local";
  copied = true;
}

request_iff_example : (request_has_disallowed_browser_origin own_page ≡ false) ↔ IsAllowed own_page
unfolding is_literal
request_iff_example = request_iff own_page refl

own_page_allowed : request_has_disallowed_browser_origin own_page ≡ false
unfolding request_has_disallowed_browser_origin
own_page_allowed = refl

other_page_refused :
    request_has_disallowed_browser_origin
      (record own_page { origin = codes "http://m45.local.evil" })
    ≡ true
unfolding request_has_disallowed_browser_origin
other_page_refused = refl

-- Two IPv6 addresses are cut at their first colons, and another port is let through.
other_address_passes :
    request_has_disallowed_browser_origin
      (record own_page { origin = codes "http://[fe80::bad]"; host = codes "[fe80::1]" })
    ≡ false
unfolding request_has_disallowed_browser_origin
other_address_passes = refl

other_port_passes :
    request_has_disallowed_browser_origin
      (record own_page { origin = codes "http://m45.local:8080" })
    ≡ false
unfolding request_has_disallowed_browser_origin
other_port_passes = refl
