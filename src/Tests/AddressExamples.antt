-- ===== src/Tests/AddressExamples.antt =====
-- Examples on content addresses.
use dph.Base.{◌≡◌, refl, inl, inr, true, false, [], ◌∷◌, ◌≤◌, arith}
use dph.Base.Text.{codes}
use dph.Base.Number.{pos}
use dph.Address.{Segment, Parsed, url_text, new_url, parse_url}
use dph.Address.Segments.{IsCanonical}
use dph.Address.RoundTrip.{IsAddress, new_url-parse_url}

abbrev body : Segment
body = record { kind = codes "body"; index = pos 0; has_index = false }

abbrev third : Segment
third = record { kind = codes "p"; index = pos 3; has_index = true }

-- mail://gmail/T42/M17/body/p[3]#r2,c5
abbrev place : Parsed
place = record {
  scheme = codes "mail";
  platform = codes "gmail";
  thread = codes "T42";
  msg = codes "M17";
  segments = body ∷ third ∷ [];
  anchor = codes "r2,c5";
}

three_fits : 3 ≤ 9223372036854775807
three_fits = omega arith

body-IsCanonical : IsCanonical body
unfolding dph.Address.all_bytes
body-IsCanonical = (refl, inl (refl, refl))

third-IsCanonical : IsCanonical third
unfolding dph.Address.all_bytes
third-IsCanonical = (refl, inr (refl, (3, refl, three_fits)))

place-IsAddress : IsAddress place
unfolding dph.Address.all_bytes
place-IsAddress = record {
  scheme = refl;
  platform = refl;
  thread = refl;
  msg = refl;
  segments = (body-IsCanonical, (third-IsCanonical, tt));
  anchor = inr refl;
}

new_url-parse_url_example :
    (new_url place ≡ inr (url_text place)) × (parse_url (url_text place) ≡ inr place)
new_url-parse_url_example = new_url-parse_url place place-IsAddress
