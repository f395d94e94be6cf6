-- ===== src/Tests.antt =====
-- Runs of the model on small inputs, and the properties at inputs that meet their hypotheses.
mod Keys
mod Tries
mod Tables
mod Stores
mod Shortlists
mod Files
mod Requests
mod Handlers
mod Codecs
mod Daemons
mod Lookups
mod Lifecycles
mod Letters
mod Downloads
mod Commands
mod Evals
