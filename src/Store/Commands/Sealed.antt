-- ===== src/Store/Commands/Sealed.antt =====
-- No sealed argument outlives its delivery, and none is returned but by its delivery.
use esp32_rig.Base.{
  ℕ, ◌≡◌, refl, String, Bool, true, false, not, ◌&&◌, ◌⊎◌, Option, none, some, List, [], ◌∷◌, arith,
  eq_iff, lookup, put, All, All-append, ltb,
}
use esp32_rig.Store.Table.{update_where, All-update_where}
use esp32_rig.Store.Jobs.{Fields}
use esp32_rig.Store.Commands.{
  Command, Commands, is_queued, is_open, has_id, is_sealed_kind, blank, placeholder, forget_sealed,
  decode_command, add_command, start_command, send_row, mark_sent, mark_all, take_commands, end_row,
  finish_command, expire_row, expire_commands, is_sent,
}

-- No ciphertext: nothing sealed, or the placeholder in its place.
abbrev pub IsBlank : Fields → Type 0
IsBlank args = (lookup "sealed" args ≡ none) ⊎ (lookup "sealed" args ≡ some placeholder)

pub lookup-put : (k v : String) (args : Fields) → lookup k (put k v args) ≡ some v
lookup-put k v [] = ground (arith, eq_iff k k)
lookup-put k v ((j, w) ∷ args) = ground (arith, lookup-put k v args, eq_iff k k)

blank-IsBlank : (args : Fields) → IsBlank (blank args)
blank-IsBlank args = ground (arith, lookup-put "sealed" placeholder args)

-- A command whose arguments are sealed has lost them once it is no longer waiting to be sent.
abbrev pub IsSealed : Command → Type 0
IsSealed c = is_sealed_kind c ≡ true → is_queued c.status ≡ false → IsBlank c.args

-- What the statement that blanks has still to do.
abbrev But : (Command → Bool) → Command → Type 0
But p c = p c ≡ false → IsSealed c

forget_sealed-IsSealed :
    (p : Command → Bool) (commands : Commands)
    → ((c : Command) → p (record c { args = blank c.args }) ≡ p c)
    → All (But p) commands
    → All IsSealed (forget_sealed p commands)
unfolding forget_sealed
forget_sealed-IsSealed p commands same h =
    All-update_where (But p) IsSealed (λ c. is_sealed_kind c && p c) _ commands
      (λ c e b sealed waited. blank-IsBlank c.args)
      (λ c e b sealed waited. b (ground arith) sealed waited) h

mark_sent-IsSealed :
    (now : ℕ) (id : String) (commands : Commands)
    → All IsSealed commands
    → All IsSealed (mark_sent now id commands)
unfolding mark_sent
mark_sent-IsSealed now id commands h =
    forget_sealed-IsSealed (has_id id) (update_where (has_id id) (send_row now) commands)
      (λ c. refl)
      (All-update_where IsSealed (But (has_id id)) (has_id id) (send_row now) commands
        (λ c e s other. absurd (cc (other, e))) (λ c e s other. s) h)

mark_all-IsSealed :
    (now : ℕ) (rows : List Command) (commands : Commands)
    → All IsSealed commands
    → All IsSealed (mark_all now rows commands)
unfolding mark_all
mark_all-IsSealed now [] commands h = h
mark_all-IsSealed now (c ∷ cs) commands h =
    mark_all-IsSealed now cs (mark_sent now c.id commands) (mark_sent-IsSealed now c.id commands h)

finish-IsSealed :
    (id status : String) (result : Option Fields) (detail : Option String) (now : ℕ)
    (commands : Commands)
    → All IsSealed commands
    → All IsSealed (finish_command id status result detail now commands).1
unfolding finish_command
finish-IsSealed id status result detail now commands h =
    forget_sealed-IsSealed (has_id id) _ (λ c. refl)
      (All-update_where IsSealed (But (has_id id)) (λ c. has_id id c && is_open c.status)
        (end_row status result detail now) commands (λ c e s other. absurd (ground arith))
        (λ c e s other. s) h)

expire-IsSealed :
    (older_than now : ℕ) (commands : Commands)
    → All IsSealed commands
    → All IsSealed (expire_commands older_than now commands).1
unfolding expire_commands
expire-IsSealed older_than now commands h =
    forget_sealed-IsSealed (λ c. not (is_open c.status)) _ (λ c. refl)
      (All-update_where IsSealed (But (λ c. not (is_open c.status)))
        (λ c. is_open c.status && ltb c.created_at older_than) (expire_row now) commands
        (λ c e s other. absurd (cc other)) (λ c e s other. s) h)

start-IsSealed :
    (id : String) (now : ℕ) (commands : Commands)
    → All IsSealed commands
    → All IsSealed (start_command id now commands).1
unfolding start_command
start-IsSealed id now commands h =
    All-update_where IsSealed IsSealed (λ c. has_id id c && is_sent c.status) _ commands
      (λ c e s sealed waited. s sealed (ground arith)) (λ c e s. s) h

-- What the portal's routes do to the table.
pub data Request : Type 0 where
  adds : String → String → String → Fields → Option String → ℕ → Request
  takes : String → ℕ → Request
  starts : String → ℕ → Request
  finishes : String → String → Option Fields → Option String → ℕ → Request
  expires : ℕ → ℕ → Request

pub serve : Request → Commands → Commands
serve (adds id worker kind args by now) commands = add_command id worker kind args by now commands
serve (takes w now) commands = (take_commands w now commands).1
serve (starts id now) commands = (start_command id now commands).1
serve (finishes id status result detail now) commands =
    (finish_command id status result detail now commands).1
serve (expires older_than now) commands = (expire_commands older_than now commands).1

pub serve_all : List Request → Commands → Commands
serve_all [] commands = commands
serve_all (r ∷ rs) commands = serve_all rs (serve r commands)

serve-IsSealed :
    (r : Request) (commands : Commands) → All IsSealed commands → All IsSealed (serve r commands)
unfolding serve add_command take_commands
serve-IsSealed (adds id worker kind args by now) commands h =
    All-append IsSealed commands _ h (λ sealed waited. absurd (cc waited), tt)
serve-IsSealed (takes w now) commands h = mark_all-IsSealed now _ commands h
serve-IsSealed (starts id now) commands h = start-IsSealed id now commands h
serve-IsSealed (finishes id status result detail now) commands h =
    finish-IsSealed id status result detail now commands h
serve-IsSealed (expires older_than now) commands h = expire-IsSealed older_than now commands h

serve_all-All :
    (rs : List Request) (commands : Commands)
    → All IsSealed commands
    → All IsSealed (serve_all rs commands)
unfolding serve_all
serve_all-All [] commands h = h
serve_all-All (r ∷ rs) commands h =
    serve_all-All rs (serve r commands) (serve-IsSealed r commands h)

-- After any requests to an empty table: a stored command of a sealed kind that is no longer waiting
-- to be sent has no ciphertext among its arguments.
pub serve_all-IsSealed : (rs : List Request) → All IsSealed (serve_all rs [])
serve_all-IsSealed rs = serve_all-All rs [] tt

-- What the API returns of any command, but for the delivery, has no ciphertext among its arguments.
pub decode_command-IsBlank : (c : Command) → IsBlank (decode_command false c).args
unfolding decode_command
decode_command-IsBlank c = blank-IsBlank c.args
