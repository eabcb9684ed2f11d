-- ===== src/Examples/Certificates.antt =====
-- The names of the server's certificate at the list of domains of the repository.
use bumper.Base.{String, ◌≡◌, refl, [], ◌∷◌}
use bumper.Text.{append, split}
use bumper.Certs.{reversed, build_san_list}
use bumper.Certs.Domains.{raw_domains}
use bumper.Certs.Laws.{In, here}
use bumper.Certs.Laws.Covered.{Covers, build_san_list-Covers}

abbrev first_domain : String
first_domain = "a1zYhiMF5J3.iot-as-mqtt.cn-shanghai.aliyuncs.com"

first_labels :
    reversed (split "." first_domain) []
    ≡ "com" ∷ "aliyuncs" ∷ "cn-shanghai" ∷ "iot-as-mqtt" ∷ "a1zYhiMF5J3" ∷ []
unfolding split
first_labels = refl

build_san_list-Covers_example :
    (entry : String) × (In (append "DNS:" entry) (build_san_list raw_domains)
      × Covers entry first_domain)
build_san_list-Covers_example =
    build_san_list-Covers first_domain "com" "aliyuncs"
      ("cn-shanghai" ∷ "iot-as-mqtt" ∷ "a1zYhiMF5J3" ∷ []) raw_domains first_labels here

-- Two domains that share a level.
two_names :
    build_san_list ("a.b.c.net" ∷ "c.net" ∷ "local" ∷ "d.b.c.net" ∷ [])
    ≡ "IP:127.0.0.1" ∷ "DNS:localhost" ∷ "DNS:*.a.b.c.net" ∷ "DNS:*.b.c.net" ∷ "DNS:*.c.net"
      ∷ "DNS:*.d.b.c.net" ∷ "DNS:c.net" ∷ []
unfolding build_san_list split bumper.Text.join append
two_names = refl
