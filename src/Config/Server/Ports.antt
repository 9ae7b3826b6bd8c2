-- ===== src/Config/Server/Ports.antt =====
-- What ParseTCPPortRange accepts, and that it reads what is written as `start-end`.
use etunl_cli.Base.{
  ℕ, ◌^◌, ◌<◌, ◌≤◌, ◌≡◌, refl, sym, ◌∙◌, inl, inr, false, Option, none, some, [], ◌∷◌, ◌++◌, ok,
  err, arith, All, Option-cases,
}
use etunl_cli.Base.Bytes.{Bytes, cut_first, cut_first-append}
use etunl_cli.Base.Int.{ℤ, pos, negsuc}
use etunl_cli.Base.Decimal.{
  IsDigit, format_int, parse_int, parse_int-format_int, format_int-shape, format_int-Lacks,
}
use etunl_cli.Base.Space.{is_space, trim_left, trim_right, trim_space}
use etunl_cli.Config.Server.{
  RangeError, bad_format, ServerConfig, check_range, parse_range, parse_tcp_port_range,
}

err_ne_ok : {e : RangeError} {r : ℤ × ℤ} → ¬ (err e ≡ ok r)
err_ne_ok h = cc

check_range_ok :
    (s e start end : ℤ)
    → check_range s e ≡ ok (start, end)
    → (a : ℕ) × (b : ℕ) × (start ≡ pos a) × (end ≡ pos b) × (1 ≤ a) × (a < b) × (b ≤ 65535)
unfolding check_range
check_range_ok (pos s) (pos e) start end h =
    (s, e, ground arith, ground arith, ground arith, ground arith, ground arith)
check_range_ok (pos s) (negsuc e) start end h = absurd (ground arith)
check_range_ok (negsuc s) (pos e) start end h = absurd (ground arith)
check_range_ok (negsuc s) (negsuc e) start end h = absurd (ground arith)

parse_range_ok :
    (s e : Option ℤ) (start end : ℤ)
    → parse_range s e ≡ ok (start, end)
    → (a : ℕ) × (b : ℕ) × (start ≡ pos a) × (end ≡ pos b) × (1 ≤ a) × (a < b) × (b ≤ 65535)
unfolding parse_range
parse_range_ok none e start end h = cc
parse_range_ok (some s) none start end h = cc
parse_range_ok (some s) (some e) start end h = check_range_ok s e start end h

check_range_ports :
    (a b : ℕ) → 1 ≤ a → a < b → b ≤ 65535 → check_range (pos a) (pos b) ≡ ok (pos a, pos b)
unfolding check_range
check_range_ports a b ha hab hb = ground arith

digit_not_space : (c : ℕ) → IsDigit c → is_space c ≡ false
digit_not_space c h = ground arith

trim_right-digits : (s : Bytes) → All IsDigit s → trim_right s ≡ s
unfolding trim_right
trim_right-digits [] h = refl
trim_right-digits (c ∷ s) (hc, h) =
    rw (trim_right, trim_right-digits s h, digit_not_space c hc) (ground arith)

trim_space-digits : (c : ℕ) (s : Bytes) → All IsDigit (c ∷ s) → trim_space (c ∷ s) ≡ c ∷ s
unfolding trim_space trim_left
trim_space-digits c s (hc, h) =
    rw (trim_space, trim_left, digit_not_space c hc) (trim_right-digits (c ∷ s) (hc, h))

trim_space-format_int : (n : ℕ) → n < 2 ^ 63 → trim_space (format_int n) ≡ format_int n
trim_space-format_int n h =
    let (c, s, shape, ds) = format_int-shape n h in rw shape (trim_space-digits c s ds)

-- A range that ParseTCPPortRange gives is increasing and lies within the ports: both ends are
-- natural numbers with 1 ≤ start < end ≤ 65535.
pub parse_tcp_port_range_ok :
    (c : ServerConfig) (start end : ℤ)
    → parse_tcp_port_range c ≡ ok (start, end)
    → (a : ℕ) × (b : ℕ) × (start ≡ pos a) × (end ≡ pos b) × (1 ≤ a) × (a < b) × (b ≤ 65535)
unfolding parse_tcp_port_range
parse_tcp_port_range_ok c start end h = elim (Option-cases (cut_first b'-' c.tcp_port_range)) [
  | inl whole ↦
      let at : parse_tcp_port_range c ≡ err bad_format = rw (parse_tcp_port_range, whole) refl in
      absurd (err_ne_ok (sym at ∙ h))
  | inr ((first, second), cut) ↦
      parse_range_ok (parse_int (trim_space first)) (parse_int (trim_space second)) start end
        (sym (rw (parse_tcp_port_range, cut) refl) ∙ h)
]

-- ParseTCPPortRange reads back every range of ports that is written in decimal with a `-` between.
pub parse_tcp_port_range-format_int :
    (c : ServerConfig) (a b : ℕ)
    → 1 ≤ a
    → a < b
    → b ≤ 65535
    → c.tcp_port_range ≡ format_int a ++ b'-' ∷ format_int b
    → parse_tcp_port_range c ≡ ok (pos a, pos b)
unfolding parse_tcp_port_range
parse_tcp_port_range-format_int c a b ha hab hb e =
    let small : a < 2 ^ 63 = omega arith in
    let small' : b < 2 ^ 63 = omega arith in
    rw
      (
        parse_tcp_port_range,
        e,
        cut_first-append b'-' (format_int a) (format_int b)
            (format_int-Lacks b'-' a (λ d. omega arith) small),
        trim_space-format_int a small,
        trim_space-format_int b small',
        parse_int-format_int a small,
        parse_int-format_int b small',
      )
      (check_range_ports a b ha hab hb)
