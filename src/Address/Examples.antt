-- ===== src/Address/Examples.antt =====
-- The theorem on addresses at a concrete input: a machine that keeps the low byte first.
use lucky.Base.{ℕ, ◌+◌, ◌*◌, ◌/◌, ◌%◌, ◌≤◌, ◌≡◌, List, [], ◌∷◌, ◌++◌, arith, length, decimal, ok}
use lucky.Address.{init, to_ip, to_port, to_ip_port}
use lucky.Address.Texts.{Documented, to_ip_port_lem}

abbrev swap : ℕ → ℕ
swap port = port % 256 * 256 + port / 256

-- The text "1.1".
abbrev some_text : ℕ → List ℕ
some_text addr = 49 ∷ 46 ∷ 49 ∷ []

swap-Documented : Documented swap swap some_text
swap-Documented = record { order = λ port small. omega arith; dotted = λ addr. omega arith }

to_ip_port_lem_example :
    let a = init swap swap (λ ip. 0) some_text 8080 [] in
    let text = to_ip swap swap (λ ip. 0) some_text a ++ (58 ∷ decimal 8080) in
    (to_port swap swap (λ ip. 0) some_text a ≡ 8080)
    × (to_ip_port swap swap (λ ip. 0) some_text a ≡ ok text)
    × (length text ≤ 21)
to_ip_port_lem_example =
    to_ip_port_lem swap swap (λ ip. 0) some_text swap-Documented 8080 [] (omega arith)
