-- ===== src/Sync/Monad.antt =====
-- Steps of a sync: the state and exceptions, and transactions that an exception rolls back.
use moresocial.Base.{text_in, ◌++◌, none, if◌then◌else◌, some, String, Option, List}
use moresocial.Sync.{
  disabled, stream_scope, is_active, stream_stopped, err, Connection, ok, Raised, SyncStream,
  Result, World,
}

abbrev pub M : Type 0 → Type 0 → Type 0
M R A = World R → Result A × World R

module _ {R : Type 0} where
  infixl 5 ◌>>=◌ ◌>>◌
  abbrev pub and_then : {A B : Type 0} → Result A × World R → (A → M R B) → Result B × World R
  and_then (ok a, w) f = f a w
  and_then (err e, w) f = (err e, w)

  abbrev pub ◌>>=◌ : {A B : Type 0} → M R A → (A → M R B) → M R B
  ◌>>=◌ m f w = and_then (m w) f

  abbrev pub ◌>>◌ : {A B : Type 0} → M R A → M R B → M R B
  m >> k = m >>= λ _. k

  abbrev pub pure : {A : Type 0} → A → M R A
  pure a w = (ok a, w)

  abbrev pub raise : {A : Type 0} → Raised → M R A
  raise e w = (err e, w)

  -- An answer of the provider.
  abbrev pub lift : {A : Type 0} → Result A → M R A
  lift r w = (r, w)

  -- `with db.session()`: an exception rolls the changes back.
  abbrev pub commit : {A : Type 0} → World R → Result A × World R → Result A × World R
  commit w (ok a, w') = (ok a, w')
  commit w (err e, w') = (err e, w)

  abbrev pub transaction : {A : Type 0} → M R A → M R A
  transaction m w = commit w (m w)

  -- What follows holds where it follows from how the first part ended.
  pub then_rule :
      {A B : Type 0} (Q : Result A × World R → Type 0) (P : Result B × World R → Type 0)
      → (f : A → M R B) (out : Result A × World R) → Q out
      → ((a : A) (w : World R) → Q (ok a, w) → P (f a w))
      → ((e : Raised) (w : World R) → Q (err e, w) → P (err e, w))
      → P (and_then out f)
  then_rule Q P f (ok a, w) q good bad = good a w q
  then_rule Q P f (err e, w) q good bad = bad e w q

-- `_load`: a missing scope disables the stream before it raises.
abbrev pub load_row :
    {R : Type 0} → World R → SyncStream → Connection → Result (SyncStream × Connection) × World R
load_row w st c =
    if is_active c.state
    then if text_in (stream_scope st.stream) c.scopes then (ok (st, c), w) else (
      err stream_stopped,
      record w { stream = some (record st { status = disabled; next_run_at = none }) },
    )
    else (err stream_stopped, w)

abbrev pub load_rows :
    {R : Type 0}
    → World R
    → Option SyncStream
    → Option Connection
    → Result (SyncStream × Connection) × World R
load_rows w none c = (err stream_stopped, w)
load_rows w (some st) none = (err stream_stopped, w)
load_rows w (some st) (some c) = load_row w st c

unfoldable pub load : {R : Type 0} → M R (SyncStream × Connection)
load w = load_rows w w.stream w.conn

-- The upserts of `_apply` and the new position.
abbrev pub store_page :
    {R : Type 0} → List R → (SyncStream → SyncStream) → SyncStream × Connection → M R (Unit {0})
store_page rs update (st, c) w =
    (ok tt, record w { stream = some (update st); upserted = w.upserted ++ rs })

-- `_apply`
unfoldable pub apply_page : {R : Type 0} → List R → (SyncStream → SyncStream) → M R (Unit {0})
unfolding load
apply_page rs update = transaction (load >>= store_page rs update)

-- The position of a stream, where there is one.
abbrev pub position : Option SyncStream → Option (Option String)
position none = none
position (some st) = some st.cursor

abbrev pub cursor_of : {R : Type 0} → World R → Option (Option String)
cursor_of w = position w.stream
