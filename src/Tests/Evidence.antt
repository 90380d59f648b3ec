-- ===== src/Tests/Evidence.antt =====
-- Uploads of a capture.
use z_shield.Prelude.{◌≡◌, ◌≢◌, refl, Option, none, some, List, [], ◌∷◌, ◌++◌}
use z_shield.Text.{Text, codes, text_eq, take, drop, to_upper}
use z_shield.Text.Search.{starts_with, index_in, index_from, slice}
use z_shield.Table.{find_where, update_where, delete_where}
use z_shield.Crypto.{Bytes, hash_token}
use z_shield.Tenant.{Result, ok, with_tenant, is_id}
use z_shield.Evidence.Multipart.{
  jpeg, exhausted, scanned, sniff, boundary_of, before, is_multipart, trim_start, trim_end, scan,
  scan_from, parse_upload,
}
use z_shield.Evidence.Multipart.Bounds.{Contains, scanned-ends, parse_upload-Contains}
use z_shield.Evidence.{
  Upload, UploadReply, Capture, Hits, pending, uploaded, limited, receive, store, post_upload,
}
use z_shield.Evidence.Outcome.{Outcome, post_upload-Outcome, post_upload-once}
use z_shield.Tests.Runtime.{toy}
use z_shield.Tests.Accounts.{org}

-- a text of ASCII
abbrev utf8 : Text → Bytes
utf8 s = s

abbrev picture : Bytes
picture = 0xff ∷ 0xd8 ∷ 0xff ∷ 0xe0 ∷ 0 ∷ []

abbrev break : Bytes
break = 13 ∷ 10 ∷ []

-- a form with a field and a picture
abbrev form : Bytes
form =
    codes "--B"
    ++ (break
        ++ (codes "name: x"
            ++ (break
                ++ (break
                    ++ (codes "1"
                        ++ (break
                            ++ (codes "--B"
                                ++ (break
                                    ++ (codes "name: y"
                                        ++ (break
                                            ++ (break
                                                ++ (picture ++ (break ++ codes "--B--")))))))))))))

abbrev form_type : Option Text
form_type = some (codes "Multipart/Form-Data; boundary=\"B\"")

form_parsed : parse_upload utf8 form form_type ≡ some (record { mime = jpeg; content = picture })
unfolding parse_upload boundary_of before is_multipart trim_start trim_end scan scan_from sniff
    starts_with index_in index_from slice to_upper take drop text_eq
form_parsed = refl

parse_upload-Contains_example : Contains form (record { mime = jpeg; content = picture })
parse_upload-Contains_example =
    parse_upload-Contains utf8 form form_type {image = record { mime = jpeg; content = picture }}
      form_parsed

abbrev upload : Upload
upload = record {
  org = org;
  id = codes "cap_aaaaaaaaaaaaaaaaaaaaaaaaaa";
  token = some (codes "token-of-one-capture-only");
  body = picture;
  content_type = some (codes "image/jpeg");
  ip = codes "::1";
}

abbrev capture : Capture
capture = record {
  id = codes "cap_aaaaaaaaaaaaaaaaaaaaaaaaaa";
  organization_id = org;
  token_hash = hash_token toy (codes "token-of-one-capture-only");
  status = pending;
  mime = none;
  bytes = none;
  image = none;
  expires_at = 300000;
  received_at = none;
}

abbrev first : (Result UploadReply × List Hits) × List Capture
first = post_upload toy utf8 upload 5 [] (capture ∷ [])

first_runs : first.0.0 ≡ ok uploaded
unfolding post_upload limited receive store find_where update_where delete_where with_tenant is_id
    parse_upload boundary_of before is_multipart trim_start trim_end sniff starts_with index_in
    to_upper take drop text_eq hash_token
first_runs = refl

post_upload-Outcome_example : Outcome toy utf8 upload 5 (capture ∷ []) first.0.0 first.1
post_upload-Outcome_example = post_upload-Outcome toy utf8 upload 5 (capture ∷ []) []

post_upload-once_example : (post_upload toy utf8 upload 6 first.0.1 first.1).0.0 ≢ ok uploaded
post_upload-once_example =
    post_upload-once toy utf8 upload upload 5 6 [] first.0.1 (capture ∷ []) refl refl first_runs

scanned-ends_example : scanned utf8 form (codes "B") ≢ exhausted
scanned-ends_example = scanned-ends utf8 form (codes "B")
