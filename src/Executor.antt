-- ===== src/Executor.antt =====
-- src/core/runtime/executor.rs: the interface of the executor, which is not implemented yet.
use amunchain.Base.{Result, err}

pub data ExecError : Type 0 where
  not_implemented : ExecError

pub record EvmExecutor : Type 0 where

-- `EvmExecutor::new`
unfoldable pub new_executor : EvmExecutor
new_executor = record {}

-- `EvmExecutor::execute`
unfoldable pub execute : EvmExecutor → Result ExecError (Unit {0})
execute executor = err not_implemented
