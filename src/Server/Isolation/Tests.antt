-- ===== src/Server/Isolation/Tests.antt =====
-- The isolation of users at a concrete history.
use zca_desktop.Common.{ℕ, ◌-◌, ◌≡◌, refl, none, some, List, [], ◌∷◌, arith}
use zca_desktop.Server.{UserRow}
use zca_desktop.Server.Isolation.{Call, link, converse, unlink, run, visible}
use zca_desktop.Server.Isolation.Others.{with_users, run-isolated}

abbrev user : ℕ → UserRow
user i = record {
  id = i;
  email = "";
  recovery_key_hash = "";
  wrapped_data_key = [];
  server_key_nonce = [];
  server_wrapped_data_key = [];
}

abbrev users : List UserRow
users = user 7 ∷ user 8 ∷ []

abbrev before : List Call
before =
    link 10 7 7 "z7" none none [] []
    ∷ link 11 8 8 "z8" none none [] []
    ∷ converse 12 107 7 7 "t" "user" none none
    ∷ []

abbrev others : List Call
others = converse 13 108 8 8 "t" "user" (some "An") none ∷ unlink 8 8 ∷ unlink 8 7 ∷ []

run-isolated_example :
    visible 7 (run (run (with_users users) before) others)
    ≡ visible 7 (run (with_users users) before)
run-isolated_example =
    run-isolated (λ account. account) (λ c. c - 100) 7 users before others
      (refl, (refl, ((refl, refl), tt))) ((refl, refl), (tt, (tt, tt)))
      (λ e. omega arith, (λ e. omega arith, (λ e. omega arith, tt)))
