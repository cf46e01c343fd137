-- ===== src/Zuulconf/Names.antt =====
-- The names of the sections: those of connections differ from all others.
use Prim.Native.Char.{code}
use Prim.Native.String.{◌++◌}
use text.Mathlib.TextLemmas.{cons-append, append_cancel_left}
use sf_operator.Common.{ℕ, String, ◌≡◌, ◌≢◌, refl, false, arith, ◌==◌, eq_iff}
use sf_operator.Zuulconf.Sections.{connection, authentication}

-- The first character.
unfoldable pub first : String → ℕ
first String.[] = 0
first (String.◌∷◌ c s) = code c

pub first-append : (s t : String) → s ≢ "" → first (s ++ t) ≡ first s
unfolding first
first-append String.[] t h = absurd (h refl)
first-append (String.◌∷◌ c s) t h = rw cons-append refl

-- Texts that begin with different letters.
pub ne_of_first : (s t : String) → first s ≢ first t → (s == t) ≡ false
ne_of_first s t h = ground (arith, eq_iff s t)

first-connection : (a : String) → first (connection a) ≡ b'c'
unfolding first
first-connection a = first-append "connection " a (λ e. cc)

pub connection-eq : (a b : String) → (connection a == connection b) ≡ (a == b)
connection-eq a b =
    ground (
      arith,
      eq_iff a b,
      eq_iff (connection a) (connection b),
      append_cancel_left "connection " a b,
    )

-- A name that begins with another letter is of no connection.
pub connection-ne : (a other : String) → first other ≢ b'c' → (connection a == other) ≡ false
connection-ne a other h = ground (arith, eq_iff (connection a) other, first-connection a)

pub connection-ne-authentication : (a b : String) → (connection a == authentication b) ≡ false
unfolding first
connection-ne-authentication a b =
    connection-ne a (authentication b) (λ e. ground (arith, first-append "auth " b (λ e. cc)))
