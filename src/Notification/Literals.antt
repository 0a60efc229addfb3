-- ===== src/Notification/Literals.antt =====
-- How AppleScript reads the literals of the scripts that jarvis/services/notification_service.py and
-- jarvis/agents/device_monitor_agent/__init__.py start. Parameter: what `\c` stands for in a literal.
use Prim.Native.Char.{Char, code}
use Prim.Native.String.{◌++◌ as append_text}
use text.Mathlib.TextEquality.{Char-path}
use text.Mathlib.TextLemmas.{nil-append, cons-append, append_assoc}
use jarvis_server.Prelude.{
  ℕ, String, ◌≡◌, refl, ap, sym, ◌∙◌, Bool, true, false, Option, none, some, ◌==◌, if◌then◌else◌,
  ◌>>=◌, Bool-cases, inl, inr, arith,
}
use jarvis_server.Notification.{
  Notification, replace, safe_text, sanitized, script, sound_clause, monitor_script,
}

replace-append :
    (old : ℕ) (new s t : String)
    → replace old new (append_text s t) ≡ append_text (replace old new s) (replace old new t)
unfolding replace
replace-append old new String.[] t = ap (replace old new) (nil-append t) ∙ sym (nil-append _)
replace-append old new (String.◌∷◌ c s) t =
    ap (replace old new) (cons-append c s t) ∙ elim (Bool-cases (code c == old)) [
      | inl e ↦
          rw e (ap (append_text new) (replace-append old new s t) ∙ sym (append_assoc new _ _))
      | inr e ↦ rw e (ap (String.◌∷◌ c) (replace-append old new s t) ∙ sym (cons-append c _ _))
    ]

-- The rest of a literal, up to its closing quote, and what follows it; the flag tells that the last
-- character was a backslash.
unfoldable pub read_literal : (Char → Char) → Bool → String → Option (String × String)
read_literal unescape escaped String.[] = none
read_literal unescape true (String.◌∷◌ c s) =
    read_literal unescape false s >>= λ p. some (String.◌∷◌ (unescape c) p.0, p.1)
read_literal unescape false (String.◌∷◌ c s) =
    let escape = read_literal unescape true s in
    let rest = read_literal unescape false s in
    if code c == 34
    then some ("", s)
    else if code c == 92
    then escape
    else (rest >>= λ p. some (String.◌∷◌ c p.0, p.1))

quote_code : (c : Char) → (code c == 34) ≡ true → Path Char c "\""
quote_code c h = Char-path c "\"" (ground (arith, h))

backslash_code : (c : Char) → (code c == 92) ≡ true → Path Char c "\\"
backslash_code c h = Char-path c "\\" (ground (arith, h))

safe_text-quote : (s : String) → safe_text (String.◌∷◌ "\"" s) ≡ append_text "\\\"" (safe_text s)
unfolding safe_text replace
safe_text-quote s = refl

safe_text-backslash :
    (s : String) → safe_text (String.◌∷◌ "\\" s) ≡ append_text "\\\\" (safe_text s)
unfolding safe_text replace
safe_text-backslash s = replace-append 34 "\\\"" "\\\\" (replace 92 "\\\\" s)

safe_text-other :
    (c : Char) (s : String)
    → (code c == 34) ≡ false
    → (code c == 92) ≡ false
    → safe_text (String.◌∷◌ c s) ≡ String.◌∷◌ c (safe_text s)
unfolding safe_text replace
safe_text-other c s h k = rw k (rw h refl)

-- Two characters before a text.
pair-append :
    (c d : Char) (s t : String)
    → append_text (append_text (String.◌∷◌ c (String.◌∷◌ d "")) s) t
      ≡ String.◌∷◌ c (String.◌∷◌ d (append_text s t))
pair-append c d s t =
    append_assoc _ s t
    ∙ cons-append c _ _
    ∙ ap (String.◌∷◌ c) (cons-append d _ _ ∙ ap (String.◌∷◌ d) (nil-append _))

triple-append :
    (t : String) → append_text "\\\\\"" t ≡ String.◌∷◌ "\\" (String.◌∷◌ "\\" (String.◌∷◌ "\"" t))
triple-append t =
    cons-append "\\" "\\\"" t
    ∙ ap (String.◌∷◌ "\\") (
        cons-append "\\" "\"" t
        ∙ ap (String.◌∷◌ "\\") (cons-append "\"" "" t ∙ ap (String.◌∷◌ "\"") (nil-append t)))

sanitized-escape :
    (t : String) → sanitized (append_text "\\\"" t) ≡ append_text "\\\\\"" (sanitized t)
unfolding sanitized replace
sanitized-escape t =
    ap (replace 39 "") (replace-append 34 "\\\"" "\\\"" t)
    ∙ replace-append 39 "" "\\\\\"" (replace 34 "\\\"" t)

-- The character of this code does not occur.
unfoldable pub avoids : ℕ → String → Bool
avoids k String.[] = true
avoids k (String.◌∷◌ c s) = let rest = avoids k s in if code c == k then false else rest

avoids-cons :
    (k : ℕ) (c : Char) (p : String)
    → avoids k (String.◌∷◌ c p) ≡ true
    → ((code c == k) ≡ false) × (avoids k p ≡ true)
unfolding avoids
avoids-cons k c p = split (code c == k) (avoids k p)
  where
    split : (b x : Bool) → (if b then false else x) ≡ true → (b ≡ false) × (x ≡ true)
    split true x h = cc
    split false x h = (refl, h)

replace-avoids :
    (old : ℕ) (new p t : String)
    → avoids old p ≡ true
    → replace old new (append_text p t) ≡ append_text p (replace old new t)
unfolding replace
replace-avoids old new String.[] t h = ap (replace old new) (nil-append t) ∙ sym (nil-append _)
replace-avoids old new (String.◌∷◌ c p) t h =
    let (e, k) = avoids-cons old c p h in
    ap (replace old new) (cons-append c p t)
    ∙ rw e (ap (String.◌∷◌ c) (replace-avoids old new p t k) ∙ sym (cons-append c p _))

sanitized-avoids :
    (p t : String)
    → avoids 34 p ≡ true
    → avoids 39 p ≡ true
    → sanitized (append_text p t) ≡ append_text p (sanitized t)
unfolding sanitized
sanitized-avoids p t h k =
    ap (replace 39 "") (replace-avoids 34 "\\\"" p t h) ∙ replace-avoids 39 "" p _ k

module _ (unescape : Char → Char) (unescape_quote : Path Char (unescape "\"") "\"")
    (unescape_backslash : Path Char (unescape "\\") "\\") where
  abbrev read : String → Option (String × String)
  read = read_literal unescape false

  read-safe_text :
      (s rest : String) → read (append_text (safe_text s) (String.◌∷◌ "\"" rest)) ≡ some (s, rest)
  unfolding read_literal safe_text replace
  read-safe_text String.[] rest = ap read (nil-append (String.◌∷◌ "\"" rest))
  read-safe_text (String.◌∷◌ c s) rest = elim (Bool-cases (code c == 34)) [
    | inl e ↦ rw (quote_code c e) (
        ap read (
          ap (λ t. append_text t (String.◌∷◌ "\"" rest)) (safe_text-quote s)
          ∙ pair-append "\\" "\"" (safe_text s) _)
        ∙ rw (read-safe_text s rest) (rw unescape_quote refl))
    | inr e ↦ elim (Bool-cases (code c == 92)) [
      | inl f ↦ rw (backslash_code c f) (
          ap read (
            ap (λ t. append_text t (String.◌∷◌ "\"" rest)) (safe_text-backslash s)
            ∙ pair-append "\\" "\\" (safe_text s) _)
          ∙ rw (read-safe_text s rest) (rw unescape_backslash refl))
      | inr f ↦
          ap read (
            ap (λ t. append_text t (String.◌∷◌ "\"" rest)) (safe_text-other c s e f)
            ∙ cons-append c _ _)
          ∙ rw e (rw f (rw (read-safe_text s rest) refl))
    ]
  ]

  -- The script that is started, of whatever texts, is read as the command, the message, the title and
  -- the sound of its priority: no text ends its literal. A literal reads an escaped quote or backslash
  -- as that character.
  pub script-IsRead :
      (n : Notification)
      → (a b : String) × (script n ≡ append_text "display notification \"" a)
        × (read a ≡ some (n.message, append_text " with title \"" b))
        × (read b ≡ some (n.title, sound_clause n.priority))
  unfolding script
  script-IsRead n =
      let end = sound_clause n.priority in
      let b = append_text (safe_text n.title) (append_text "\"" end) in
      let a = append_text (safe_text n.message) (append_text "\" with title \"" b) in
      (
        a,
        b,
        refl,
        ap (λ t. read (append_text (safe_text n.message) t)) (cons-append "\"" " with title \"" b)
            ∙ read-safe_text n.message _,
        ap (λ t. read (append_text (safe_text n.title) t))
              (cons-append "\"" "" end ∙ ap (String.◌∷◌ "\"") (nil-append end))
            ∙ read-safe_text n.title _,
      )

  read-escaped :
      (rest after : String)
      → read (append_text (sanitized (append_text "\\\"" rest)) after)
        ≡ some ("\\", append_text (sanitized rest) after)
  unfolding read_literal
  read-escaped rest after =
      ap (λ t. read (append_text t after)) (sanitized-escape rest)
      ∙ ap read (
          append_assoc "\\\\\"" (sanitized rest) after
          ∙ triple-append (append_text (sanitized rest) after))
      ∙ rw unescape_backslash refl

  read-avoids :
      (p t : String)
      → avoids 34 p ≡ true
      → avoids 92 p ≡ true
      → (a b : String) → read t ≡ some (a, b)
      → read (append_text p t) ≡ some (append_text p a, b)
  unfolding read_literal
  read-avoids String.[] t h k a b e =
      ap read (nil-append t) ∙ e ∙ ap (λ x. some (x, b)) (sym (nil-append a))
  read-avoids (String.◌∷◌ c p) t h k a b e =
      let (e34, h') = avoids-cons 34 c p h in
      let (e92, k') = avoids-cons 92 c p k in
      ap read (cons-append c p t)
      ∙ rw (e34, e92, read-avoids p t h' k' a b e) (ap (λ x. some (x, b)) (sym (cons-append c p a)))

  -- In the script of the device monitor a backslash before a quote in a message ends the literal of the
  -- message: what follows the two characters is read as code. Before them stands a text without quotes,
  -- apostrophes and backslashes, and a literal reads an escaped quote or backslash as that character.
  pub monitor_script-escapes :
      (title before rest : String)
      → avoids 34 before ≡ true
      → avoids 39 before ≡ true
      → avoids 92 before ≡ true
      → (a : String) × (monitor_script title (append_text before (append_text "\\\"" rest))
          ≡ append_text "display notification \"" a)
        × (read a
            ≡ some (
              append_text before "\\",
              append_text
                  (sanitized rest)
                  (append_text "\" with title \"" (append_text (sanitized title) "\"")),
            ))
  unfolding monitor_script
  monitor_script-escapes title before rest h34 h39 h92 =
      let after = append_text "\" with title \"" (append_text (sanitized title) "\"") in
      (
        _,
        refl,
        ap (λ t. read (append_text t after))
              (sanitized-avoids before (append_text "\\\"" rest) h34 h39)
            ∙ ap read (append_assoc before (sanitized (append_text "\\\"" rest)) after)
            ∙ read-avoids before _ h34 h92 "\\" (append_text (sanitized rest) after)
                (read-escaped rest after),
      )
