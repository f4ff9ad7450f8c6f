-- ===== src/Server/Names.antt =====
-- The names of connections: each is new, and finds its connection.
use mathlib.Core.Bool.{false≢true}
use lucky.Base.{
  ℕ, ◌^◌, ◌≤◌, ◌<◌, ◌≡◌, ◌≢◌, refl, sym, ◌∙◌, ap, List, [], ◌∷◌, ◌++◌, Bool, true, false, ◌&&◌,
  ◌==◌, ==_iff, ==_refl, Option, none, some, if◌then◌else◌, arith, length, length-append, take_all,
  append_cancel, decimal, decimal-injective, length-decimal, Bool-cases, inl, inr, ◌⊎◌,
}
use lucky.Server.{Text, eq_text, lookup, assign, erase, Server, conn_name, members}

eq_text_refl : (a : Text) → eq_text a a ≡ true
eq_text_refl [] = refl
eq_text_refl (c ∷ cs) = rw (==_refl c, eq_text_refl cs)

eq_text_sound : (a b : Text) → eq_text a b ≡ true → a ≡ b
eq_text_sound [] [] same = refl
eq_text_sound [] (d ∷ ds) same = absurd (false≢true same)
eq_text_sound (c ∷ cs) [] same = absurd (false≢true same)
eq_text_sound (c ∷ cs) (d ∷ ds) same =
    let (head, rest) = both (c == d) (eq_text cs ds) same in
    let first : c ≡ d = (==_iff c d).0 head in let others = eq_text_sound cs ds rest in cc
  where
    both : (a b : Bool) → (a && b) ≡ true → (a ≡ true) × (b ≡ true)
    both true b h = (refl, h)
    both false b h = absurd (false≢true h)

pub eq_text_ne : (a b : Text) → a ≢ b → eq_text a b ≡ false
eq_text_ne a b apart = elim (Bool-cases (eq_text a b)) [
  | inl same ↦ absurd (apart (eq_text_sound a b same))
  | inr other ↦ other
]

pub text_cases : (a b : Text) → (a ≡ b) ⊎ (a ≢ b)
text_cases a b = elim (Bool-cases (eq_text a b)) [
  | inl same ↦ inl (eq_text_sound a b same)
  | inr other ↦ inr (λ e. false≢true (sym other ∙ ap (eq_text a) (sym e) ∙ eq_text_refl a))
]

pub lookup-assign_self :
    (label : Text) (id : ℕ) (m : List (Text × ℕ)) → lookup label (assign label id m) ≡ some id
lookup-assign_self label id [] = rw (eq_text_refl label)
lookup-assign_self label id ((key, old) ∷ rest) = elim (Bool-cases (eq_text key label)) [
  | inl same ↦ rw (same, same)
  | inr other ↦ rw (other, other) (lookup-assign_self label id rest)
]

pub lookup-assign_other :
    (label l : Text) (id : ℕ) (m : List (Text × ℕ))
    → label ≢ l
    → lookup l (assign label id m) ≡ lookup l m
lookup-assign_other label l id [] apart = rw (eq_text_ne label l apart)
lookup-assign_other label l id ((key, old) ∷ rest) apart = elim (Bool-cases (eq_text key label)) [
  | inl same ↦
      let key_apart : eq_text key l ≡ false =
        eq_text_ne key l (λ e. apart (sym (eq_text_sound key label same) ∙ e)) in
      rw (same, key_apart)
  | inr other ↦ rw other (
      ap (λ found. if eq_text key l then some old else found)
        (lookup-assign_other label l id rest apart))
]

pub lookup-erase_self : (label : Text) (m : List (Text × ℕ)) → lookup label (erase label m) ≡ none
lookup-erase_self label [] = refl
lookup-erase_self label ((key, id) ∷ rest) = elim (Bool-cases (eq_text key label)) [
  | inl same ↦ rw same (lookup-erase_self label rest)
  | inr other ↦ rw (other, other) (lookup-erase_self label rest)
]

pub lookup-erase_other :
    (label l : Text) (m : List (Text × ℕ)) → label ≢ l → lookup l (erase label m) ≡ lookup l m
lookup-erase_other label l [] apart = refl
lookup-erase_other label l ((key, id) ∷ rest) apart = elim (Bool-cases (eq_text key label)) [
  | inl same ↦
      let key_apart : eq_text key l ≡ false =
        eq_text_ne key l (λ e. apart (sym (eq_text_sound key label same) ∙ e)) in
      rw (same, key_apart) (lookup-erase_other label l rest apart)
  | inr other ↦ rw other (
      ap (λ found. if eq_text key l then some id else found)
        (lookup-erase_other label l rest apart))
]

-- The text of an address is short enough for the buffer, and every connection's name was made from
-- a number that was used before the next one.
pub record Named (s : Server) : Type 0 where
  pub short : length s.ip_port ≤ 21
  pub bounded : s.next_conn_id < 2 ^ 31
  pub numbered :
      (label : Text) (id : ℕ)
      → lookup label s.connections ≡ some id
      → (k : ℕ) × (k < s.next_conn_id) × (label ≡ conn_name s k)

-- The whole name fits.
conn_name_lem :
    (s : Server) (k : ℕ)
    → length s.ip_port ≤ 21
    → k < 2 ^ 31
    → conn_name s k ≡ s.name ++ (45 ∷ (s.ip_port ++ (35 ∷ decimal k)))
unfolding conn_name
conn_name_lem s k short small =
    ap (λ l. s.name ++ l)
      (take_all 63 (45 ∷ (s.ip_port ++ (35 ∷ decimal k))) (
        omega (
          arith,
          length-append s.ip_port (35 ∷ decimal k),
          length-decimal 10 k (omega arith) (omega arith),
        )))

pub conn_name-injective :
    (s : Server) (k m : ℕ)
    → length s.ip_port ≤ 21
    → k < 2 ^ 31
    → m < 2 ^ 31
    → conn_name s k ≡ conn_name s m
    → k ≡ m
conn_name-injective s k m short small small' same =
    let behind : (45 ∷ (s.ip_port ++ (35 ∷ decimal k))) ≡ (45 ∷ (s.ip_port ++ (35 ∷ decimal m))) =
      append_cancel s.name
        (sym (conn_name_lem s k short small) ∙ same ∙ conn_name_lem s m short small') in
    let after_address : (35 ∷ decimal k) ≡ (35 ∷ decimal m) =
      append_cancel (45 ∷ s.ip_port) behind in
    decimal-injective k m (append_cancel (35 ∷ []) after_address)

-- The next name is not in use.
pub next-unused : (s : Server) → Named s → lookup (conn_name s s.next_conn_id) s.connections ≡ none
next-unused s n = by_case (lookup (conn_name s s.next_conn_id) s.connections) refl
  where
    by_case :
        (found : Option ℕ)
        → lookup (conn_name s s.next_conn_id) s.connections ≡ found
        → found ≡ none
    by_case none e = refl
    by_case (some id) e =
        let (k, less, same) = n.numbered (conn_name s s.next_conn_id) id e in
        let again : s.next_conn_id ≡ k =
          conn_name-injective s s.next_conn_id k n.short n.bounded (omega arith) same in
        absurd (omega arith)

-- A new server, for the text of an address, has its names in order.
pub members-Named :
    (base_loop : ℕ) (ip_port name : Text)
    → length ip_port ≤ 21
    → Named (members base_loop ip_port name)
unfolding members conn_name
members-Named base_loop ip_port name short = record {
  short = short;
  bounded = omega arith;
  numbered = λ label id at. absurd (none_ne at);
}
  where
    none_ne : {id : ℕ} → ◌≢◌ {A = Option ℕ} none (some id)
    none_ne e = cc
