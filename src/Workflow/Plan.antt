-- ===== src/Workflow/Plan.antt =====
-- Compiled workflow plans (packages/domain/src/workflow-compiler.ts).
use byok_grid.Common.{ℕ, Text, List}
use byok_grid.Workflow.Graph.{NodeKind}

pub record Route : Type 0 where
  pub edge_id : ℕ
  pub source_handle : Text
  pub source_step_id : ℕ
  pub target_handle : Text
  pub target_step_id : ℕ

pub record CompiledStep (C : Type 0) : Type 0 where
  pub configuration : C
  pub dependency_step_ids : List ℕ
  pub inbound_routes : List Route
  pub kind : NodeKind
  pub name : Text
  pub outbound_routes : List Route
  pub step_id : ℕ

pub record CompiledPlan (C : Type 0) : Type 0 where
  pub entry_step_ids : List ℕ
  pub steps : List (CompiledStep C)
  pub terminal_step_ids : List ℕ
