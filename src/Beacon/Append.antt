-- ===== src/Beacon/Append.antt =====
-- chain/beacon/store.go: the stores that wrap the database. The append store admits only the next
-- beacon, the discrepancy store logs, and the callback store hands each new beacon to callbacks.
pub mod Linked
pub mod Log
pub mod Verified
use drand.Prelude.{
  ℕ, zero, suc, ◌+◌, ◌%◌, ◌^◌, ◌≡◌, Bool, true, false, not, Option, none, some, List, [], ◌∷◌, ◌++◌,
  map, ◌==◌, if◌then◌else◌, Result, ok, err, Bytes, bytes_equal,
}
use drand.Prelude.Assoc.{Assoc, Eq, bytes_eq, insert, delete}
use drand.Chain.Block.{Beacon}
use drand.Store.{Store, StoreError}

pub data AppendError : Type 0 where
  invalid_round invalid_previous_signature : AppendError
  store_failed : StoreError → AppendError
  -- a.last is nil: the read of its round panics
  nil_dereference : AppendError

module _ (S : Store) where
  -- The mutex of the Go type makes each Put one step.
  pub record AppendStore : Type 0 where
    pub store : S.State
    pub last : Option Beacon

  -- newAppendStore; the error of Last is dropped
  unfoldable pub new_append_store : S.State → AppendStore
  new_append_store s = record { store = s; last = elim (S.last s) [ ok b ↦ some b | err e ↦ none ] }

  -- a.Store.Put(b), and then a.last = b
  unfoldable pub put_store : Beacon → Result StoreError S.State → Result AppendError AppendStore
  put_store b (err e) = err (store_failed e)
  put_store b (ok s) = ok (record { store = s; last = some b })

  unfoldable pub put_after : AppendStore → Option Beacon → Beacon → Result AppendError AppendStore
  put_after a none b = err nil_dereference
  put_after a (some last) b =
      if not (b.round == (last.round + 1) % 2 ^ 64)
      then err invalid_round
      else if not (bytes_equal last.signature b.previous_sig)
      then err invalid_previous_signature
      else put_store b (S.put a.store b)

  -- appendStore.Put
  unfoldable pub put : AppendStore → Beacon → Result AppendError AppendStore
  unfolding put_after put_store
  put a b = put_after a a.last b

  -- Jobs for the workers: a callback, by the id that it is registered under, and a beacon. A send
  -- waits while the channel is full; the list is the order of the sends.
  pub record CallbackStore : Type 0 where
    pub inner : AppendStore
    pub callbacks : Assoc Bytes (Unit {0})
    pub new_job : List (Bytes × Beacon)

  -- NewCallbackStore over the discrepancy store, whose Put is that of the append store and log lines
  unfoldable pub new_callback_store : AppendStore → CallbackStore
  new_callback_store a = record { inner = a; callbacks = []; new_job = [] }

  unfoldable pub notify : CallbackStore → Beacon → CallbackStore
  notify c b =
      if b.round == 0
      then c
      else record c { new_job = c.new_job ++ map (λ cb. (cb.0, b)) c.callbacks }

  -- callbackStore.Put
  unfoldable pub callback_put : CallbackStore → Beacon → Result AppendError CallbackStore
  callback_put c b = elim (put c.inner b) [
    | err e ↦ err e
    | ok a ↦ ok (notify (record c { inner = a }) b)
  ]

  unfoldable pub add_callback : CallbackStore → Bytes → CallbackStore
  add_callback c id = record c { callbacks = insert id tt c.callbacks }

  unfoldable pub remove_callback : CallbackStore → Bytes → CallbackStore
  remove_callback c id = record c { callbacks = delete id c.callbacks }
