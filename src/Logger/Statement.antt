-- ===== src/Logger/Statement.antt =====
-- What one logging statement writes.
use tv_cast.Prelude.{
  ◌≡◌, refl, sym, ap, ◌∙◌, true, false, List, [], ◌∷◌, ◌++◌, append_assoc, append-nil, none, some,
  leb, inl, inr, Bool-cases, if◌then◌else◌, Bytes, codes, Result, ok, err, undefined_behaviour,
}
use tv_cast.Logger.{
  LogLevel, level_value, Log, get_label, append, with_level, destroy, end_line, append_all, is_on,
}

abbrev pub concat : List Bytes → Bytes
concat [] = []
concat (msg ∷ msgs) = msg ++ concat msgs

abbrev opened_log : LogLevel → Log
opened_log level = record { opened = some true; msg_level = level }

append_all-on :
    (current level : LogLevel) (msgs : List Bytes) (out : Bytes)
    → leb (level_value current) (level_value level) ≡ true
    → append_all current msgs (opened_log level, out) ≡ (opened_log level, out ++ concat msgs)
unfolding append_all append
append_all-on current level [] out on = ap (λ o. (opened_log level, o)) (sym (append-nil out))
append_all-on current level (msg ∷ msgs) out on =
    rw on (append_all-on current level msgs (out ++ msg) on)
    ∙ ap (λ o. (opened_log level, o)) (append_assoc out msg (concat msgs))

append_all-off :
    (current : LogLevel) (msgs : List Bytes) (log : Log) (out : Bytes)
    → is_on current log ≡ false
    → append_all current msgs (log, out) ≡ (log, out)
unfolding append_all append
append_all-off current [] log out off = refl
append_all-off current (msg ∷ msgs) log out off = rw off (append_all-off current msgs log out off)

-- `LOG(level) << a << b;` where the current level is `current`.
abbrev pub statement : LogLevel → LogLevel → List Bytes → Bytes → Result Bytes
statement current level msgs out =
    destroy current (append_all current msgs (with_level current level out))

abbrev label : LogLevel → Bytes
label level = codes "[" ++ (get_label level ++ codes "] ")

statement-on :
    (current level : LogLevel) (msgs : List Bytes) (out : Bytes)
    → leb (level_value current) (level_value level) ≡ true
    → statement current level msgs out ≡ ok (((out ++ label level) ++ concat msgs) ++ codes "\n")
unfolding with_level append get_label destroy end_line
statement-on current level msgs out on =
    let written = (out ++ label level) ++ concat msgs in
    let begun : with_level current level out ≡ (opened_log level, out ++ label level) =
      rw on refl in
    let ended : destroy current (opened_log level, written) ≡ ok (written ++ codes "\n") =
      rw on refl in
    ap (λ s. destroy current (append_all current msgs s)) begun
    ∙ ap (destroy current) (append_all-on current level msgs (out ++ label level) on)
    ∙ ended

statement-off :
    (current level : LogLevel) (msgs : List Bytes) (out : Bytes)
    → leb (level_value current) (level_value level) ≡ false
    → statement current level msgs out ≡ err undefined_behaviour
unfolding with_level append destroy end_line
statement-off current level msgs out off =
    let silent : Log = record { opened = none; msg_level = level } in
    let begun : with_level current level out ≡ (silent, out) = rw off refl in
    ap (λ s. destroy current (append_all current msgs s)) begun
    ∙ ap (destroy current) (append_all-off current msgs silent out off)

-- A statement at or above the current level writes the label of its level in brackets, its values in
-- their order and the end of the line, behind what was written before. One below the current level
-- leaves `opened_` without a value, which its destructor reads.
pub statement-cases :
    (current level : LogLevel) (msgs : List Bytes) (out : Bytes)
    → statement current level msgs out ≡ (
        if leb (level_value current) (level_value level)
        then ok
            (((out ++ (codes "[" ++ (get_label level ++ codes "] "))) ++ concat msgs) ++ codes "\n")
        else err undefined_behaviour)
statement-cases current level msgs out =
    elim (Bool-cases (leb (level_value current) (level_value level))) [
      | inl on ↦ rw on (statement-on current level msgs out on)
      | inr off ↦ rw off (statement-off current level msgs out off)
    ]
