-- ===== src/Messages/Registry/Entries.antt =====
-- The entries that `initializeMessageTypes` adds, in its order.
use safrochain_indexer.Prelude.{String, Bool, true, false, List, [], ◌∷◌}
use safrochain_indexer.Messages.Types.{
  bank, staking, governance, distribution, slashing, auth, fees, upgrade, evidence, MessageField,
  MessageTypeInfo,
}

abbrev field : String → String → String → Bool → MessageField
field name field_type description required = record {
  name = name;
  field_type = field_type;
  description = description;
  required = required;
}

abbrev pub msg_send : MessageTypeInfo
msg_send = record {
  type_name = "cosmos.bank.v1beta1.MsgSend";
  module_name = "bank";
  label = "Send";
  description = "Send coins from one account to another";
  category = bank;
  fields =
      field "from_address" "string" "Sender address" true
      ∷ field "to_address" "string" "Recipient address" true
      ∷ field "amount" "array" "Amount to send" true
      ∷ [];
}

abbrev pub msg_multi_send : MessageTypeInfo
msg_multi_send = record {
  type_name = "cosmos.bank.v1beta1.MsgMultiSend";
  module_name = "bank";
  label = "Multi Send";
  description = "Send coins to multiple recipients";
  category = bank;
  fields =
      field "inputs" "array" "Input addresses and amounts" true
      ∷ field "outputs" "array" "Output addresses and amounts" true
      ∷ [];
}

abbrev pub msg_delegate : MessageTypeInfo
msg_delegate = record {
  type_name = "cosmos.staking.v1beta1.MsgDelegate";
  module_name = "staking";
  label = "Delegate";
  description = "Delegate tokens to a validator";
  category = staking;
  fields =
      field "delegator_address" "string" "Delegator address" true
      ∷ field "validator_address" "string" "Validator address" true
      ∷ field "amount" "object" "Amount to delegate" true
      ∷ [];
}

abbrev pub msg_undelegate : MessageTypeInfo
msg_undelegate = record {
  type_name = "cosmos.staking.v1beta1.MsgUndelegate";
  module_name = "staking";
  label = "Undelegate";
  description = "Undelegate tokens from a validator";
  category = staking;
  fields =
      field "delegator_address" "string" "Delegator address" true
      ∷ field "validator_address" "string" "Validator address" true
      ∷ field "amount" "object" "Amount to undelegate" true
      ∷ [];
}

abbrev pub msg_begin_redelegate : MessageTypeInfo
msg_begin_redelegate = record {
  type_name = "cosmos.staking.v1beta1.MsgBeginRedelegate";
  module_name = "staking";
  label = "Redelegate";
  description = "Redelegate tokens from one validator to another";
  category = staking;
  fields =
      field "delegator_address" "string" "Delegator address" true
      ∷ field "validator_src_address" "string" "Source validator address" true
      ∷ field "validator_dst_address" "string" "Destination validator address" true
      ∷ field "amount" "object" "Amount to redelegate" true
      ∷ [];
}

abbrev pub msg_submit_proposal : MessageTypeInfo
msg_submit_proposal = record {
  type_name = "cosmos.gov.v1.MsgSubmitProposal";
  module_name = "gov";
  label = "Submit Proposal";
  description = "Submit a governance proposal";
  category = governance;
  fields =
      field "messages" "array" "Proposal messages" true
      ∷ field "initial_deposit" "array" "Initial deposit" true
      ∷ field "proposer" "string" "Proposer address" true
      ∷ field "metadata" "string" "Proposal metadata" true
      ∷ field "title" "string" "Proposal title" true
      ∷ field "summary" "string" "Proposal summary" true
      ∷ [];
}

abbrev pub msg_deposit : MessageTypeInfo
msg_deposit = record {
  type_name = "cosmos.gov.v1.MsgDeposit";
  module_name = "gov";
  label = "Deposit";
  description = "Deposit tokens for a governance proposal";
  category = governance;
  fields =
      field "proposal_id" "string" "Proposal ID" true
      ∷ field "depositor" "string" "Depositor address" true
      ∷ field "amount" "array" "Deposit amount" true
      ∷ [];
}

abbrev pub msg_vote : MessageTypeInfo
msg_vote = record {
  type_name = "cosmos.gov.v1.MsgVote";
  module_name = "gov";
  label = "Vote";
  description = "Vote on a governance proposal";
  category = governance;
  fields =
      field "proposal_id" "string" "Proposal ID" true
      ∷ field "voter" "string" "Voter address" true
      ∷ field "option" "string" "Vote option" true
      ∷ field "metadata" "string" "Vote metadata" false
      ∷ [];
}

abbrev pub msg_withdraw_delegator_reward : MessageTypeInfo
msg_withdraw_delegator_reward = record {
  type_name = "cosmos.distribution.v1beta1.MsgWithdrawDelegatorReward";
  module_name = "distribution";
  label = "Withdraw Rewards";
  description = "Withdraw delegation rewards";
  category = distribution;
  fields =
      field "delegator_address" "string" "Delegator address" true
      ∷ field "validator_address" "string" "Validator address" true
      ∷ [];
}

abbrev pub msg_unjail : MessageTypeInfo
msg_unjail = record {
  type_name = "cosmos.slashing.v1beta1.MsgUnjail";
  module_name = "slashing";
  label = "Unjail";
  description = "Unjail a validator";
  category = slashing;
  fields = field "validator_addr" "string" "Validator address" true ∷ [];
}

abbrev pub msg_update_auth_params : MessageTypeInfo
msg_update_auth_params = record {
  type_name = "cosmos.auth.v1beta1.MsgUpdateParams";
  module_name = "auth";
  label = "Update Auth Params";
  description = "Update authentication parameters";
  category = auth;
  fields =
      field "params" "object" "New parameters" true
      ∷ field "authority" "string" "Authority address" true
      ∷ [];
}

abbrev pub msg_grant_allowance : MessageTypeInfo
msg_grant_allowance = record {
  type_name = "cosmos.feegrant.v1beta1.MsgGrantAllowance";
  module_name = "feegrant";
  label = "Grant Fee Allowance";
  description = "Grant fee allowance to another account";
  category = fees;
  fields =
      field "granter" "string" "Granter address" true
      ∷ field "grantee" "string" "Grantee address" true
      ∷ field "allowance" "object" "Allowance details" true
      ∷ [];
}

abbrev pub msg_revoke_allowance : MessageTypeInfo
msg_revoke_allowance = record {
  type_name = "cosmos.feegrant.v1beta1.MsgRevokeAllowance";
  module_name = "feegrant";
  label = "Revoke Fee Allowance";
  description = "Revoke fee allowance from another account";
  category = fees;
  fields =
      field "granter" "string" "Granter address" true
      ∷ field "grantee" "string" "Grantee address" true
      ∷ [];
}

abbrev pub msg_software_upgrade : MessageTypeInfo
msg_software_upgrade = record {
  type_name = "cosmos.upgrade.v1beta1.MsgSoftwareUpgrade";
  module_name = "upgrade";
  label = "Software Upgrade";
  description = "Propose a software upgrade";
  category = upgrade;
  fields =
      field "authority" "string" "Authority address" true
      ∷ field "plan" "object" "Upgrade plan" true
      ∷ [];
}

abbrev pub msg_cancel_upgrade : MessageTypeInfo
msg_cancel_upgrade = record {
  type_name = "cosmos.upgrade.v1beta1.MsgCancelUpgrade";
  module_name = "upgrade";
  label = "Cancel Upgrade";
  description = "Cancel a software upgrade";
  category = upgrade;
  fields = field "authority" "string" "Authority address" true ∷ [];
}

abbrev pub msg_submit_evidence : MessageTypeInfo
msg_submit_evidence = record {
  type_name = "cosmos.evidence.v1beta1.MsgSubmitEvidence";
  module_name = "evidence";
  label = "Submit Evidence";
  description = "Submit evidence of misbehavior";
  category = evidence;
  fields =
      field "submitter" "string" "Submitter address" true
      ∷ field "evidence" "object" "Evidence details" true
      ∷ [];
}

abbrev pub initial_message_types : List MessageTypeInfo
initial_message_types =
    msg_send ∷ msg_multi_send ∷ msg_delegate ∷ msg_undelegate ∷ msg_begin_redelegate
    ∷ msg_submit_proposal ∷ msg_deposit ∷ msg_vote ∷ msg_withdraw_delegator_reward ∷ msg_unjail
    ∷ msg_update_auth_params ∷ msg_grant_allowance ∷ msg_revoke_allowance ∷ msg_software_upgrade
    ∷ msg_cancel_upgrade ∷ msg_submit_evidence ∷ []
