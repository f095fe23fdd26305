-- ===== src/Sse/Connection/Laws.antt =====
-- The reconnecting loop of web/src/api/sse.ts: its waits, what it tells, and the chunks it reads.
use platform_for_sudies.Common.{
  ℕ, zero, suc, ◌+◌, ◌-◌, ◌^◌, ◌≤◌, String, Bool, true, Option, none, some, List, [], ◌∷◌, ◌++◌,
  any, ◌==◌, All, ◌≡◌, refl, ap, ◌∙◌, arith, inl, inr, if-elim, flat_map, ◌⊎◌, subst, sym,
}
use text.Mathlib.TextLemmas.{append-nil}
use platform_for_sudies.Api.{ChangeKind}
use platform_for_sudies.Sse.{Parser, ParsedSseMessage, new_parser, parse_change_kind, push, cut}
use platform_for_sudies.Sse.Chunks.{push_all, joined, push_all_lem}
use platform_for_sudies.Sse.Connection.{
  Connection, Ending, done, broken, cut_off, Answer, refused, connected, unreachable, aborted,
  Notice, on_open, on_change, on_error, Attempted, backoff, again, close, changes, read_body,
  finish, attempt_once, run,
}

pow_pos : (k : ℕ) → 1 ≤ 2 ^ k
pow_pos zero = omega arith
pow_pos (suc k) = omega (arith, pow_pos k)

abbrev pub IsWait : Option ℕ → Type 0
IsWait none = Unit
IsWait (some ms) = (1000 ≤ ms) × (ms ≤ 30000)

backoff-IsWait : (attempt : ℕ) → IsWait (some (backoff attempt))
unfolding backoff
backoff-IsWait attempt = (omega (arith, pow_pos (attempt - 1)), omega arith)

module _ (fatal : List ℕ) (json_kind : String → Option String) where
  finish-IsWait :
      (e : Ending) (c : Connection) (ns : List Notice) → IsWait (finish fatal json_kind e c ns).wait
  unfolding finish again close
  finish-IsWait done c ns = backoff-IsWait (c.attempt + 1)
  finish-IsWait broken c ns = backoff-IsWait (c.attempt + 1)
  finish-IsWait cut_off c ns = tt

  attempt_once-IsWait :
      (a : Answer) (c : Connection) → IsWait (attempt_once fatal json_kind a c).wait
  unfolding attempt_once again close
  attempt_once-IsWait (refused status) c =
      if-elim (λ (x : Attempted). IsWait x.wait) (any (λ s. s == status) fatal) _ _ tt
        (backoff-IsWait (c.attempt + 1))
  attempt_once-IsWait (connected chunks ending) c = finish-IsWait ending _ _
  attempt_once-IsWait unreachable c = backoff-IsWait (c.attempt + 1)
  attempt_once-IsWait aborted c = tt

  -- Every wait of the loop that reconnects, without its random part, is at least a second and
  -- at most half a minute.
  pub run-IsWait :
      (answers : List Answer) (c : Connection)
      → All (λ a. IsWait a.wait) (run fatal json_kind answers c)
  unfolding run
  run-IsWait [] c = tt
  run-IsWait (a ∷ as_) c =
      let now = attempt_once fatal json_kind a c in
      let here = attempt_once-IsWait a c in
      if-elim (All (λ (x : Attempted). IsWait x.wait)) now.connection.closed _ _ (here, tt)
        (here, run-IsWait as_ now.connection)

-- The flags with which `onOpen` is called.
abbrev pub opens : List Notice → List Bool
opens [] = []
opens (on_open reconnect ∷ ns) = reconnect ∷ opens ns
opens (on_change kind ∷ ns) = opens ns
opens (on_error ∷ ns) = opens ns

abbrev pub all_opens : List Attempted → List Bool
all_opens as_ = flat_map (λ a. opens a.notices) as_

-- The first flag is `first`, and all later ones are true.
abbrev pub IsFirst : Bool → List Bool → Type 0
IsFirst first [] = Unit
IsFirst first (b ∷ bs) = (b ≡ first) × All (λ x. x ≡ true) bs

opens-append : (ns ms : List Notice) → opens (ns ++ ms) ≡ opens ns ++ opens ms
opens-append [] ms = refl
opens-append (on_open b ∷ ns) ms = ap (◌∷◌ b) (opens-append ns ms)
opens-append (on_change kind ∷ ns) ms = opens-append ns ms
opens-append (on_error ∷ ns) ms = opens-append ns ms

IsFirst-All : (bs : List Bool) → IsFirst true bs → All (λ x. x ≡ true) bs
IsFirst-All [] h = tt
IsFirst-All (b ∷ bs) (e, h) = (e, h)

module _ (fatal : List ℕ) (json_kind : String → Option String) where
  opens-changes : (ms : List ParsedSseMessage) → opens (changes fatal json_kind ms) ≡ []
  unfolding changes
  opens-changes [] = refl
  opens-changes (m ∷ ms) = go (parse_change_kind json_kind m) (opens-changes ms)
    where
      go :
          (o : Option ChangeKind)
          → opens (changes fatal json_kind ms) ≡ []
          → opens (elim o [
            | none ↦ changes fatal json_kind ms
            | some kind ↦ on_change kind ∷ changes fatal json_kind ms
          ])
            ≡ []
      go none e = e
      go (some kind) e = e

  -- What one attempt tells of the opening, and the flag that it leaves.
  abbrev IsTold : Connection → Attempted → Type 0
  IsTold c a =
      ((opens a.notices ≡ []) × (a.connection.opened ≡ c.opened))
      ⊎ ((opens a.notices ≡ c.opened ∷ []) × (a.connection.opened ≡ true))

  opens-read_body :
      (chunks : List String) (b : Bool)
      → opens (on_open b ∷ read_body fatal json_kind chunks) ≡ b ∷ []
  unfolding read_body
  opens-read_body chunks b = ap (◌∷◌ b) (opens-changes (push_all chunks new_parser).out)

  finish-IsTold :
      (e : Ending) (c : Connection) (chunks : List String)
      → IsTold c (
          finish fatal json_kind e
            (record c { attempt = 0; opened = true })
            (on_open c.opened ∷ read_body fatal json_kind chunks))
  unfolding finish again close
  finish-IsTold done c chunks = inr (opens-read_body chunks c.opened, refl)
  finish-IsTold broken c chunks = inr (
    opens-append (on_open c.opened ∷ read_body fatal json_kind chunks) (on_error ∷ [])
        ∙ ap (λ bs. bs ++ []) (opens-read_body chunks c.opened),
    refl,
  )
  finish-IsTold cut_off c chunks = inr (opens-read_body chunks c.opened, refl)

  attempt_once-IsTold : (a : Answer) (c : Connection) → IsTold c (attempt_once fatal json_kind a c)
  unfolding attempt_once again close
  attempt_once-IsTold (refused status) c =
      if-elim (IsTold c) (any (λ s. s == status) fatal) _ _ (inl (refl, refl)) (inl (refl, refl))
  attempt_once-IsTold (connected chunks ending) c = finish-IsTold ending c chunks
  attempt_once-IsTold unreachable c = inl (refl, refl)
  attempt_once-IsTold aborted c = inl (refl, refl)

  IsFirst-later :
      (c : Connection) (a : Attempted) (rest : List Bool)
      → IsTold c a
      → IsFirst a.connection.opened rest
      → IsFirst c.opened (opens a.notices ++ rest)
  IsFirst-later c a rest (inl (none_told, same)) h =
      rw none_told (subst (λ b. IsFirst b rest) same h)
  IsFirst-later c a rest (inr (told, opened)) h =
      rw told (refl, IsFirst-All rest (subst (λ b. IsFirst b rest) opened h))

  -- The first time that a stream opens, it is told as the first unless the connection had been
  -- open before, and every later time as a reconnect.
  pub run-IsFirst :
      (answers : List Answer) (c : Connection)
      → IsFirst c.opened (all_opens (run fatal json_kind answers c))
  unfolding run
  run-IsFirst [] c = tt
  run-IsFirst (a ∷ as_) c =
      let now = attempt_once fatal json_kind a c in
      let told = attempt_once-IsTold a c in
      if-elim (λ (xs : List Attempted). IsFirst c.opened (all_opens xs)) now.connection.closed _ _
        (IsFirst-later c now [] told tt)
        (IsFirst-later c now (all_opens (run fatal json_kind as_ now.connection)) told
          (run-IsFirst as_ now.connection))

  idle : cut "" ≡ none
  unfolding cut
  idle = refl

  -- What an attempt tells does not depend on how its body is cut into chunks.
  pub attempt_once-joined :
      (chunks : List String) (e : Ending) (c : Connection)
      → attempt_once fatal json_kind (connected chunks e) c
        ≡ attempt_once fatal json_kind (connected (joined chunks ∷ []) e) c
  unfolding attempt_once read_body
  attempt_once-joined chunks e c =
      let whole = joined chunks ∷ [] in
      let same =
        push_all_lem chunks new_parser idle
        ∙ ap (λ s. push s new_parser) (sym (append-nil (joined chunks)))
        ∙ sym (push_all_lem whole new_parser idle) in
      ap
        (λ (p : Parser).
          finish fatal json_kind e (record c { attempt = 0; opened = true })
            (on_open c.opened ∷ changes fatal json_kind p.out))
        same
