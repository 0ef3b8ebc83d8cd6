-- ===== src/Memstore/Laws.antt =====
-- The in-memory store keeps the promises of ports.go.
use hmntsk.Prelude.{refl}
use hmntsk.Store.{Laws}
use hmntsk.Memstore.{in_transaction, read_task, get_task, mem_store}
use hmntsk.Memstore.Views.{mem_view, mem_begin, mem_commit, PlainTx}
use hmntsk.Memstore.Writes.{
  updated, view-updated, created, view-created, history_done, view-history, events_done,
  view-events, found_read,
}
use hmntsk.Memstore.Scopes.{
  joins, begins, view-committed, view-begun, stays_open_update, stays_open_create,
  stays_open_history, stays_plain_update, stays_plain_create, stays_plain_history,
  stays_plain_events, closed_after, plain_begun,
}

-- The in-memory store is a lawful store.
unfoldable pub mem_laws : Laws mem_store
unfolding in_transaction get_task
mem_laws = record {
  view = mem_view;
  begin = mem_begin;
  commit = mem_commit;
  IsPlain = λ w. PlainTx w.tx;
  do_joined = λ cancelled m w o. joins cancelled m w.committed w.tx o;
  do_began = λ cancelled m w o. begins cancelled m w.committed w.tx o;
  begin-open = λ w. refl;
  begin-IsPlain = λ w. plain_begun;
  view-begin = λ w o. view-begun w.committed w.tx o;
  view-commit = λ w p. view-committed w.committed w.tx p;
  commit-closed = λ w. closed_after w.committed w.tx;
  get_lem = λ id w. found_read id (read_task w.committed w.tx id) w;
  update-result = λ t v w o. updated t v w.committed w.tx o;
  update-view = λ t v w o. view-updated t v w.committed w.tx o;
  update-open = λ t v w o. stays_open_update t v w.committed w.tx o;
  update-IsPlain = λ t v w p. stays_plain_update t v w.committed w.tx p;
  create-result = λ t w o. created t w.committed w.tx o;
  create-view = λ t w o. view-created t w.committed w.tx o;
  create-open = λ t w o. stays_open_create t w.committed w.tx o;
  create-IsPlain = λ t w p. stays_plain_create t w.committed w.tx p;
  history-result = λ rs w o. history_done rs w.committed w.tx o;
  history-view = λ rs w o. view-history rs w.committed w.tx o;
  history-open = λ rs w o. stays_open_history rs w.committed w.tx o;
  history-IsPlain = λ rs w p. stays_plain_history rs w.committed w.tx p;
  events-result = λ es w o. events_done es w.committed w.tx o;
  events-view = λ es w o. view-events es w.committed w.tx o;
  events-IsPlain = λ es w p. stays_plain_events es w.committed w.tx p;
}
